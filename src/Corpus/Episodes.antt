-- ===== src/Corpus/Episodes.antt =====
-- internal/corpus/episodes.go: failure episodes. `time.Parse` with RFC 3339 is a parameter that gives
-- an instant in nanoseconds.
pub mod Invariant
pub mod Shape
use aha.Prelude.{
  ℕ, suc, ◌+◌, ◌-◌, ◌*◌, ◌^◌, Bool, true, false, not, ◌&&◌, List, [], ◌∷◌, ◌++◌, Option, none, some,
  if◌then◌else◌, length, map, take, drop, modify,
}
use aha.Prelude.Int.{ℤ, pos, negsuc, int_eq, int_ltb, ◌-ℤ◌}
use aha.Prelude.Sort.{sort_stable}
use aha.Text.{Bytes, text_eq}
use aha.Text.Order.{text_ltb}
use aha.Text.Dict.{Dict, get, put, delete, has}
use aha.Corpus.Invocation.{ToolInvocation}

-- `resolution_path` is `none` for Go's nil.
pub record FailureEpisode : Type 0 where
  pub session_key : Bytes
  pub open_entry_id : Bytes
  pub open_ordinal : ℤ
  pub tool_name : Bytes
  pub command_family : Bytes
  pub error_signature : Bytes
  pub resolved : Bool
  pub resolve_entry_id : Bytes
  pub resolve_ordinal : ℤ
  pub resolution_path : Option (List Bytes)
  pub project_key : Bytes
  pub opened_at : Bytes
  pub resolved_at : Bytes

-- Durations are in nanoseconds.
pub record EpisodeConfig : Type 0 where
  pub max_gap : ℤ
  pub max_steps : ℤ

abbrev pub default_episode_config : EpisodeConfig
default_episode_config = record { max_gap = pos (30 * 60 * 10 ^ 9); max_steps = pos 40 }

-- `out` is the place of the episode in the list, for Go's pointer to it.
pub record OpenEpisode : Type 0 where
  pub out : ℕ
  pub open_index : ℕ
  pub open_time : Option ℤ

pub record Scan : Type 0 where
  pub episodes : List FailureEpisode
  pub open_by : Dict OpenEpisode

-- `Time.Sub`, which saturates.
unfoldable pub sub_times : ℤ → ℤ → ℤ
sub_times t u =
    let d = t -ℤ u in
    if int_ltb (pos (2 ^ 63 - 1)) d
    then pos (2 ^ 63 - 1)
    else if int_ltb d (negsuc (2 ^ 63 - 1))
    then negsuc (2 ^ 63 - 1)
    else d

abbrev pub then_less : Bool → Bool → Bool → Bool
then_less same less rest = if same then rest else less

-- The order of `assembleEpisodes`.
unfoldable pub episode_less : FailureEpisode → FailureEpisode → Bool
episode_less a b =
    then_less (text_eq a.session_key b.session_key) (text_ltb a.session_key b.session_key) (
      then_less (text_eq a.opened_at b.opened_at) (text_ltb a.opened_at b.opened_at) (
        then_less (text_eq a.open_entry_id b.open_entry_id)
          (text_ltb a.open_entry_id b.open_entry_id) (int_ltb a.open_ordinal b.open_ordinal)))

-- The sessions in the order of their first invocation, and the invocations of each.
pub record Grouped : Type 0 where
  pub order : List Bytes
  pub by_session : Dict (List ToolInvocation)

abbrev pub or_empty : {A : Type 0} → Option (List A) → List A
or_empty none = []
or_empty (some xs) = xs

add_invocation : Grouped → ToolInvocation → Grouped
add_invocation g iv = record {
  order = if has g.by_session iv.session_key then g.order else g.order ++ iv.session_key ∷ [];
  by_session =
      put g.by_session iv.session_key (or_empty (get g.by_session iv.session_key) ++ iv ∷ []);
}

group : Grouped → List ToolInvocation → Grouped
unfolding add_invocation
group g [] = g
group g (iv ∷ ivs) = group (add_invocation g iv) ivs

-- The invocations strictly between two places.
between : ℕ → ℕ → List ToolInvocation → List ToolInvocation
between i j ivs = take (j - suc i) (drop (suc i) ivs)

module _ (parse_time : Bytes → Option ℤ) (cfg : EpisodeConfig) where
  unfoldable pub parse_timestamp : Bytes → Option ℤ
  parse_timestamp s = if text_eq s [] then none else parse_time s

  gap_exceeded : Option ℤ → Option ℤ → Bool
  gap_exceeded (some opened) (some closed) = int_ltb cfg.max_gap (sub_times closed opened)
  gap_exceeded _ _ = false

  -- `withinBudget`; the steps are counted with both ends.
  unfoldable pub within_budget : OpenEpisode → ℕ → Bytes → Bool
  unfolding gap_exceeded
  within_budget ep resolve_index resolve_timestamp =
      not (int_ltb cfg.max_steps (pos (resolve_index - ep.open_index + 1)))
      && not (gap_exceeded ep.open_time (parse_timestamp resolve_timestamp))

  unfoldable pub resolve :
      List ToolInvocation → ℕ → ℕ → ToolInvocation → FailureEpisode → FailureEpisode
  unfolding between
  resolve sorted opened i iv ep = record ep {
    resolved = true;
    resolve_entry_id = iv.entry_id;
    resolve_ordinal = iv.ordinal;
    resolved_at = iv.timestamp;
    resolution_path =
        some (map (λ v. v.command_family) (between opened i sorted) ++ iv.command_family ∷ []);
  }

  pub opened : ToolInvocation → FailureEpisode
  opened iv = record {
    session_key = iv.session_key;
    open_entry_id = iv.entry_id;
    open_ordinal = iv.ordinal;
    tool_name = iv.tool_name;
    command_family = iv.command_family;
    error_signature = iv.error_signature;
    resolved = false;
    resolve_entry_id = [];
    resolve_ordinal = negsuc 0;
    resolution_path = none;
    project_key = iv.project_key;
    opened_at = iv.timestamp;
    resolved_at = [];
  }

  on_failure : ℕ → ToolInvocation → Scan → Option OpenEpisode → Scan
  unfolding opened
  on_failure i iv s (some _) = s
  on_failure i iv s none = record {
    episodes = s.episodes ++ opened iv ∷ [];
    open_by = put s.open_by iv.command_family (record {
      out = length s.episodes;
      open_index = i;
      open_time = parse_timestamp iv.timestamp;
    });
  }

  on_success : List ToolInvocation → ℕ → ToolInvocation → Scan → Option OpenEpisode → Scan
  on_success sorted i iv s none = s
  on_success sorted i iv s (some ep) =
      if within_budget ep i iv.timestamp
      then record {
        episodes = modify ep.out (resolve sorted ep.open_index i iv) s.episodes;
        open_by = delete s.open_by iv.command_family;
      }
      else record s { open_by = delete s.open_by iv.command_family }

  -- The body of the loop of `assembleSession`, at the place `i`.
  scan_one : List ToolInvocation → ℕ → ToolInvocation → Scan → Scan
  unfolding on_failure on_success
  scan_one sorted i iv s =
      let ongoing = get s.open_by iv.command_family in
      if iv.is_error then on_failure i iv s ongoing else on_success sorted i iv s ongoing

  -- The loop over the invocations that are left.
  scan : List ToolInvocation → ℕ → List ToolInvocation → Scan → Scan
  unfolding scan_one
  scan sorted i [] s = s
  scan sorted i (iv ∷ ivs) s = scan sorted (suc i) ivs (scan_one sorted i iv s)

  times_less : Option ℤ → Option ℤ → Bool → Bool
  times_less (some t) (some u) rest = then_less (int_eq t u) (int_ltb t u) rest
  times_less (some t) none rest = false
  times_less none (some u) rest = true
  times_less none none rest = rest

  -- The order of `sortInvocations`.
  invocation_less : ToolInvocation → ToolInvocation → Bool
  unfolding times_less
  invocation_less a b = times_less (parse_timestamp a.timestamp) (parse_timestamp b.timestamp) (
      then_less (int_eq a.line_no b.line_no) (int_ltb a.line_no b.line_no) (
        then_less (text_eq a.entry_id b.entry_id) (text_ltb a.entry_id b.entry_id)
          (int_ltb a.ordinal b.ordinal)))

  unfoldable pub sort_invocations : List ToolInvocation → List ToolInvocation
  unfolding invocation_less
  sort_invocations = sort_stable invocation_less

  unfoldable pub assemble_session : List ToolInvocation → List FailureEpisode
  unfolding scan
  assemble_session session =
      let sorted = sort_invocations session in
      (scan sorted 0 sorted (record { episodes = []; open_by = [] })).episodes

  assemble_each : Dict (List ToolInvocation) → List Bytes → List FailureEpisode
  assemble_each d [] = []
  assemble_each d (k ∷ ks) = assemble_session (or_empty (get d k)) ++ assemble_each d ks

  unfoldable pub assemble_episodes : List ToolInvocation → List FailureEpisode
  unfolding assemble_each group episode_less
  assemble_episodes invs =
      let g = group (record { order = []; by_session = [] }) invs in
      sort_stable episode_less (assemble_each g.by_session g.order)
