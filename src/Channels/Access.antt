-- ===== src/Channels/Access.antt =====
-- Whom the allow list of pkg/channels/base.go lets in.
use picoclaw.Prelude.{
  ℕ, zero, suc, ◌<◌, String, ◌≡◌, refl, ◌⊎◌, inl, inr, Bool, true, false, not, ◌&&◌, ◌||◌, some,
  List, [], ◌∷◌, arith, str_eq, eq_iff, ap, sym, ◌∙◌, if◌then◌else◌, Bool-cases, length, get_elem?,
  any,
}
use picoclaw.Prelude.Int.{ℤ}
use picoclaw.Prelude.Dict.{Dict}
use picoclaw.Bus.{InboundMessage}
use picoclaw.Channels.{BaseChannel, parts, trim_at, allows, is_allowed, handle_message}

-- The part after "|" when it is not empty.
abbrev pub user_name : String → List String
user_name user = if str_eq user "" then [] else user ∷ []

-- The names a sender goes by, and those an entry of the list stands for.
abbrev pub sender_names : String → List String
sender_names sender_id = sender_id ∷ (parts sender_id).0 ∷ user_name (parts sender_id).1

abbrev pub entry_names : String → List String
entry_names allowed =
    allowed ∷ trim_at allowed ∷ (parts (trim_at allowed)).0 ∷ user_name (parts (trim_at allowed)).1

abbrev pub listed : String → List String → Bool
listed s names = any (str_eq s) names

-- Some name of the sender is a name of the entry.
abbrev pub share_name : String → String → Bool
share_name sender_id allowed = any (λ n. listed n (entry_names allowed)) (sender_names sender_id)

any-get_elem? :
    {A : Type 0} (p : A → Bool) (xs : List A) (i : ℕ) {x : A}
    → get_elem? xs i ≡ some x
    → p x ≡ true
    → any p xs ≡ true
any-get_elem? p [] i at h = absurd (cc)
any-get_elem? p (y ∷ ys) zero at h = ground arith
any-get_elem? p (y ∷ ys) (suc i) at h = elim (Bool-cases (p y)) [
  | inl q ↦ ground (arith, q)
  | inr q ↦ ground (arith, q, any-get_elem? p ys i at h)
]

or-cases : (a b : Bool) → (a || b) ≡ true → (a ≡ true) ⊎ (b ≡ true)
or-cases true b h = inl refl
or-cases false b h = inr h

and_left : (a b : Bool) → (a && b) ≡ true → a ≡ true
and_left true b h = refl
and_left false b h = h

and_right : (a b : Bool) → (a && b) ≡ true → b ≡ true
and_right true b h = h
and_right false b h = absurd (cc)

shared :
    (sender_id allowed : String) (i j : ℕ) {n m : String}
    → get_elem? (sender_names sender_id) i ≡ some n
    → get_elem? (entry_names allowed) j ≡ some m
    → str_eq n m ≡ true
    → share_name sender_id allowed ≡ true
shared sender_id allowed i j {n = n} at at' h =
    any-get_elem? (λ x. listed x (entry_names allowed)) (sender_names sender_id) i at
      (any-get_elem? (str_eq n) (entry_names allowed) j at' h)

-- The tests of the two parts that are not identifiers.
abbrev by_allowed_user : String → String → Bool
by_allowed_user s e = not (str_eq (parts (trim_at e)).1 "") && str_eq s (parts (trim_at e)).1

abbrev user_tests : String → String → Bool
user_tests s e =
    str_eq (parts s).1 e
    || (str_eq (parts s).1 (trim_at e) || str_eq (parts s).1 (parts (trim_at e)).1)

get-user_name :
    (user : String) → not (str_eq user "") ≡ true → get_elem? (user_name user) 0 ≡ some user
get-user_name user named = ground arith

same_named :
    (u v : String) → str_eq u v ≡ true → not (str_eq u "") ≡ true → not (str_eq v "") ≡ true
same_named u v same named = sym (ap (λ x. not (str_eq x "")) ((eq_iff u v).0 same)) ∙ named

user_share_name :
    (s e : String)
    → (by_allowed_user s e || not (str_eq (parts s).1 "") && user_tests s e) ≡ true
    → share_name s e ≡ true
user_share_name s e h =
    let u = (parts s).1 in
    let v = (parts (trim_at e)).1 in
    elim (or-cases (by_allowed_user s e) (not (str_eq u "") && user_tests s e) h) [
      | inl q ↦
          shared s e 0 3 refl (get-user_name v (and_left (not (str_eq v "")) _ q))
            (and_right (not (str_eq v "")) _ q)
      | inr q ↦
          let named = and_left (not (str_eq u "")) (user_tests s e) q in
          let at : get_elem? (sender_names s) 2 ≡ some u = get-user_name u named in
          elim (or-cases _ _ (and_right (not (str_eq u "")) (user_tests s e) q)) [
            | inl q ↦ shared s e 2 0 at refl q
            | inr h ↦ elim (or-cases _ _ h) [
              | inl q ↦ shared s e 2 1 at refl q
              | inr q ↦ shared s e 2 3 at (get-user_name v (same_named u v q named)) q
            ]
          ]
    ]

allows-share_name :
    (sender_id allowed : String)
    → allows sender_id allowed ≡ true
    → share_name sender_id allowed ≡ true
unfolding allows
allows-share_name s e h = elim (or-cases _ _ h) [
  | inl q ↦ shared s e 0 0 refl refl q
  | inr h ↦ elim (or-cases _ _ h) [
    | inl q ↦ shared s e 1 0 refl refl q
    | inr h ↦ elim (or-cases _ _ h) [
      | inl q ↦ shared s e 0 1 refl refl q
      | inr h ↦ elim (or-cases _ _ h) [
        | inl q ↦ shared s e 1 1 refl refl q
        | inr h ↦ elim (or-cases _ _ h) [
          | inl q ↦ shared s e 1 2 refl refl q
          | inr h ↦ user_share_name s e h
        ]
      ]
    ]
  ]
]

any-implies :
    {A : Type 0} (p q : A → Bool) (xs : List A)
    → ((x : A) → p x ≡ true → q x ≡ true)
    → any p xs ≡ true
    → any q xs ≡ true
any-implies p q [] imp h = h
any-implies p q (x ∷ xs) imp h = ground (arith, imp x, any-implies p q xs imp)

-- Where there is an allow list, a message of a sender none of whose names (the whole identifier, the part
-- before "|" and the part after it, if that is not empty) is a name of an entry (as written, without "@",
-- and the two parts of that, the second if it is not empty) does not reach the bus.
pub handle_message_refuses :
    (c : BaseChannel) (now : ℤ) (sender_id chat_id content : String) (media : List String)
    (metadata : Dict String) (inbound : List InboundMessage)
    → 0 < length c.allow_list
    → any (share_name sender_id) c.allow_list ≡ false
    → handle_message c now sender_id chat_id content media metadata inbound ≡ inbound
unfolding handle_message is_allowed
handle_message_refuses c now sender_id chat_id content media metadata inbound some_entry apart =
    elim (Bool-cases (any (allows sender_id) c.allow_list)) [
      | inl p ↦ absurd (
          cc (
            any-implies (allows sender_id) (share_name sender_id) c.allow_list
                (allows-share_name sender_id) p,
            apart,
          ))
      | inr p ↦ ground arith
    ]
