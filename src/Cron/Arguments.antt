-- ===== src/Cron/Arguments.antt =====
-- pkg/tools/cron.go: the arguments of the tool and the schedule that they ask for. The conversion of a number of
-- JSON to an int64 is an argument.
use picoclaw.Prelude.{String, Bool, true, Option, none, some, str_eq, if◌then◌else◌}
use picoclaw.Prelude.Int.{ℤ, pos, wrap64, ◌+ℤ◌, ◌*ℤ◌}
use picoclaw.Llm.{Fields, field, no_fields, Value, text, number, boolean, null, array, object}
use picoclaw.Cron.{CronSchedule}

number_value : Value → Option String
number_value (number n) = some n
number_value null = none
number_value (text s) = none
number_value (boolean b) = none
number_value (array items) = none
number_value (object entries) = none

bool_value : Value → Option Bool
bool_value (boolean b) = some b
bool_value null = none
bool_value (text s) = none
bool_value (number n) = none
bool_value (array items) = none
bool_value (object entries) = none

-- args[key].(float64) with its test; the number is kept as its text.
unfoldable pub number_arg : String → Fields → Option String
unfolding number_value
number_arg key no_fields = none
number_arg key (field k v rest) =
    let later = number_arg key rest in if str_eq k key then number_value v else later

unfoldable pub bool_arg : String → Fields → Option Bool
unfolding bool_value
bool_arg key no_fields = none
bool_arg key (field k v rest) =
    let later = bool_arg key rest in if str_eq k key then bool_value v else later

bare_schedule : String → CronSchedule
bare_schedule kind = record { kind = kind; at_ms = none; every_ms = none; expr = ""; tz = "" }

-- The first of the three arguments that is there decides.
unfoldable pub schedule_of :
    (String → ℤ) → ℤ → Option String → Option String → Option String → Option CronSchedule
unfolding bare_schedule ◌+ℤ◌ ◌*ℤ◌
schedule_of to_int now (some at) every expr =
    some (record (bare_schedule "at") {
      at_ms = some (wrap64 (now +ℤ wrap64 (to_int at *ℤ pos 1000)));
    })
schedule_of to_int now none (some every) expr =
    some (record (bare_schedule "every") { every_ms = some (wrap64 (to_int every *ℤ pos 1000)) })
schedule_of to_int now none none (some expr) = some (record (bare_schedule "cron") { expr = expr })
schedule_of to_int now none none none = none

unfoldable pub or_true : Option Bool → Bool
or_true none = true
or_true (some b) = b

unfoldable pub or_empty : Option String → String
or_empty none = ""
or_empty (some s) = s
