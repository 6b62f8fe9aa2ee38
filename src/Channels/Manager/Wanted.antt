-- ===== src/Channels/Manager/Wanted.antt =====
-- Which channels NewManager of pkg/channels/manager.go has.
use picoclaw.Prelude.{
  String, ◌≡◌, refl, ◌⊎◌, inl, inr, Bool, true, false, ◌&&◌, none, List, [], ◌∷◌, arith, str_eq,
  if◌then◌else◌, Bool-cases,
}
use picoclaw.Prelude.Dict.{Dict, get, get-put}
use picoclaw.Bus.{OutboundMessage}
use picoclaw.Channels.Manager.{
  ChannelOps, ChannelsConfig, attempts, added, init_from, new_manager, deliver,
}

wanted_in : String → List (String × Bool) → Bool
wanted_in name [] = false
wanted_in name ((other, wanted) ∷ rest) =
    let later = wanted_in name rest in if str_eq name other && wanted then true else later

-- The messenger of a name is enabled and has the setting that it needs.
unfoldable pub is_wanted : String → ChannelsConfig → Bool
unfolding wanted_in attempts
is_wanted name cfg = wanted_in name (attempts cfg)

module _ {C W : Type 0} (make : String → W → W × (String ⊎ C)) where
  get-added :
      (name other : String) (channels : Dict C) (r : W × (String ⊎ C))
      → str_eq name other ≡ false
      → get (added other channels r).1 name ≡ get channels name
  unfolding added
  get-added name other channels (w, inl e) h = refl
  get-added name other channels (w, inr c) h = ground (arith, get-put channels other name c)

  get-init_from :
      (name : String) (items : List (String × Bool)) (r : W × Dict C)
      → wanted_in name items ≡ false
      → get (init_from make items r).1 name ≡ get r.1 name
  unfolding init_from wanted_in
  get-init_from name [] r h = refl
  get-init_from name ((other, wanted) ∷ rest) (w, channels) h = elim (Bool-cases wanted) [
    | inl yes_wanted ↦ ground (
      arith,
      get-added name other channels (make other w),
      get-init_from name rest (added other channels (make other w)),
    )
    | inr unwanted ↦ ground (arith, get-init_from name rest (w, channels))
  ]

  -- A message to a messenger that the configuration does not want, or that it does not know, changes
  -- nothing, and the table has no channel of its name.
  deliver-new_manager :
      (ops : ChannelOps C W) (cfg : ChannelsConfig) (msg : OutboundMessage) (w w' : W)
      → is_wanted msg.channel cfg ≡ false
      → (get (new_manager make cfg w).1.channels msg.channel ≡ none)
        × (deliver ops (new_manager make cfg w).1 msg w' ≡ w')
  unfolding new_manager deliver get is_wanted
  deliver-new_manager ops cfg msg w w' h =
      let found = get-init_from msg.channel (attempts cfg) (w, []) h in
      (found, ground (arith, found))
