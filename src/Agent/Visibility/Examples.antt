-- ===== src/Agent/Visibility/Examples.antt =====
-- The theorems about the visibility of actions at concrete commands and events.
use picoclaw.Prelude.{◌+◌, ◌*◌, ◌≤◌, ◌≡◌, refl, true, none, some, List, [], ◌∷◌, arith}
use picoclaw.Prelude.Int.{pos, pos_part, neg_part}
use picoclaw.Llm.{no_fields}
use picoclaw.Prelude.Text.{trim_space, concat}
use picoclaw.Utils.{truncate}
use picoclaw.Prelude.Strings.{fields, join}
use picoclaw.Agent.Visibility.Format.{VisibilityConfig, new_action_stream}
use picoclaw.Agent.Visibility.Commands.{shorten_path, first_part, summarize_command}
use picoclaw.Agent.Visibility.Updates.{Event, starts, completes, run, updates_spaced}

abbrev events : List Event
events =
    starts "exec" no_fields (pos 5) (pos 5) (pos 3000000000)
    ∷ starts "message" no_fields (pos 6) (pos 6) (pos 3100000000)
    ∷ completes "exec-5" "done" none (pos 7) (λ a. pos 2) (pos 9000000000)
    ∷ []

updates_spaced_example :
    let config : VisibilityConfig = record { verbose_mode = true; update_interval_ms = pos 2000 } in
    let r = run events (new_action_stream config (pos 4), 0) in
    r.1 * (2000 * 1000000) + 4 + neg_part r.0.last_update_time ≤ pos_part r.0.last_update_time
updates_spaced_example = updates_spaced events true 2000 4 (omega arith)

summaries_test :
    (summarize_command (some "sudo apt install x | tee log") ≡ "Apt install")
    × (summarize_command (some "cat a/b.txt c/d.txt") ≡ "Reading d.txt")
    × (summarize_command (some "frob a b c d") ≡ "Running: frob a b")
unfolding summarize_command first_part trim_space fields join shorten_path concat truncate
summaries_test = (refl, refl, refl)
