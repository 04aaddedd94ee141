-- ===== src/Rewind.antt =====
-- slopd/src/grok.rs: `rewind_step` and `filter_rewind_records`, which leave of Grok's append-only
-- transcript the live branch of the conversation.
pub mod Branch
use slopd.Base.{
  ℕ, zero, suc, String, Bool, true, false, not, ◌&&◌, Option, none, some, List, [], ◌∷◌, ◌++◌,
  and_then, or_else, unwrap_or, any, take, length, map_option, option_beq, string_eq, nat_eq,
  nat_eq_iff, Eq, if◌then◌else◌,
}
use slopd.Json.Value.{Value, get_key, pointer, as_str, as_bool, as_u64, str_at}

-- A record and its cursor.
abbrev pub Entry : Type 0
Entry = ℕ × Value

pub data RewindStep : Type 0 where
  rewind : (target : ℕ) → RewindStep
  user : (prompt_index : Option ℕ) → RewindStep
  other : RewindStep

abbrev session_update : String
session_update = "_x.ai/session/update"

abbrev rewind_target : Value → Option ℕ
rewind_target update =
    and_then (or_else (get_key update "target_prompt_index") (get_key update "targetPromptIndex"))
      as_u64

abbrev is_host_turn : Value → Bool
is_host_turn update =
    unwrap_or
      (and_then
        (or_else (pointer update ("_meta" ∷ "hostTurn" ∷ []))
          (pointer update ("_meta" ∷ "host_turn" ∷ [])))
        as_bool)
      false

abbrev prompt_index : Value → Option ℕ
prompt_index update =
    and_then
      (or_else (pointer update ("_meta" ∷ "promptIndex" ∷ []))
        (pointer update ("_meta" ∷ "prompt_index" ∷ [])))
      as_u64

abbrev marker_step : Option ℕ → RewindStep
marker_step none = other
marker_step (some target) = rewind target

abbrev step_of : Option String → Option String → Value → RewindStep
step_of method kind update =
    if option_beq method (some session_update) && option_beq kind (some "rewind_marker")
    then marker_step (rewind_target update)
    else if not (option_beq method (some session_update))
        && option_beq kind (some "user_message_chunk")
        && not (is_host_turn update)
    then user (prompt_index update)
    else other

unfoldable pub rewind_step : Value → RewindStep
rewind_step r = elim (or_else (pointer r ("params" ∷ "update" ∷ [])) (get_key r "update")) [
  | none ↦ other
  | some update ↦ step_of (str_at r "method") (str_at update "sessionUpdate") update
]

pub record Rewound : Type 0 where
  pub live : List Entry
  pub prompt_starts : List ℕ
  pub last_prompt_index : Option (Option ℕ)

-- `prompt_starts.get(target).copied().unwrap_or(d)`
abbrev pub nth_or : List ℕ → ℕ → ℕ → ℕ
nth_or [] k d = d
nth_or (x ∷ xs) zero d = x
nth_or (x ∷ xs) (suc k) d = nth_or xs k d

instance abbrev nat_eq_instance : Eq ℕ
nat_eq_instance = record { beq = nat_eq; beq_iff = nat_eq_iff }

-- `last_prompt_index == Some(index)`
abbrev pub is_same_prompt : Option (Option ℕ) → Option ℕ → Bool
is_same_prompt none index = false
is_same_prompt (some last) index = option_beq last index

abbrev pub apply_step : RewindStep → Entry → Rewound → Rewound
apply_step (rewind target) r s = record {
  live = take (nth_or s.prompt_starts target (length s.live)) s.live;
  prompt_starts = take target s.prompt_starts;
  last_prompt_index = none;
}
apply_step (user index) r s = record {
  live = s.live ++ r ∷ [];
  prompt_starts =
      if is_same_prompt s.last_prompt_index index
      then s.prompt_starts
      else s.prompt_starts ++ length s.live ∷ [];
  last_prompt_index = some index;
}
apply_step other r s = record s { live = s.live ++ r ∷ []; last_prompt_index = none }

unfoldable pub rewind_records : List Entry → Rewound → Rewound
unfolding rewind_step
rewind_records [] s = s
rewind_records (r ∷ rs) s = rewind_records rs (apply_step (rewind_step r.1) r s)

abbrev pub is_marker : Entry → Bool
is_marker r =
    option_beq (and_then (pointer r.1 ("params" ∷ "update" ∷ "sessionUpdate" ∷ [])) as_str)
      (some "rewind_marker")

unfoldable pub filter_rewind_records : List Entry → List Entry
unfolding rewind_records
filter_rewind_records rs =
    if any is_marker rs
    then (rewind_records rs
        (record { live = []; prompt_starts = []; last_prompt_index = none })).live
    else rs
