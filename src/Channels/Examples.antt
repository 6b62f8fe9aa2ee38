-- ===== src/Channels/Examples.antt =====
-- The theorem about the allow list at a concrete channel.
use picoclaw.Prelude.{◌≡◌, refl, true, false, [], ◌∷◌, arith}
use picoclaw.Prelude.Int.{pos}
use picoclaw.Channels.{BaseChannel, parts, trim_at, allows, is_allowed, handle_message}
use picoclaw.Channels.Access.{handle_message_refuses}

abbrev telegram : BaseChannel
telegram = record { name = "telegram"; running = true; allow_list = "42" ∷ "42|ann" ∷ "@bob" ∷ [] }

handle_message_refuses_example : handle_message telegram (pos 9) "77" "5" "hello" [] [] [] ≡ []
unfolding parts trim_at
handle_message_refuses_example =
    handle_message_refuses telegram (pos 9) "77" "5" "hello" [] [] [] (omega arith) refl

allowed_test :
    (is_allowed telegram "42|anna" ≡ true)
    × (is_allowed telegram "7|bob" ≡ true)
    × (is_allowed telegram "7|ann" ≡ true)
    × (is_allowed telegram "ann|7" ≡ false)
unfolding is_allowed allows parts trim_at
allowed_test = (refl, refl, refl, refl)
