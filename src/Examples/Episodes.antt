-- ===== src/Examples/Episodes.antt =====
-- A session with a failing `go test`, a `go build`, and a `go test` that passes.
use aha.Prelude.{◌≡◌, Bool, true, false, List, [], ◌∷◌, Option, some, refl, length, All}
use aha.Prelude.Int.{ℤ, pos}
use aha.Prelude.Sort.{InOrder}
use aha.Text.{Bytes, codes}
use aha.Prelude.Sort.{sort_stable}
use aha.Prelude.Int.{int_eq, int_ltb, ◌+ℤ◌, ◌-ℤ◌, neg}
use aha.Text.{text_eq}
use aha.Text.Order.{text_ltb}
use aha.Text.Dict.{has, put, get, delete}
use aha.Corpus.Episodes.{
  assemble_session, sort_invocations, parse_timestamp, within_budget, sub_times, resolve,
}
use aha.Corpus.Invocation.{ToolInvocation}
use aha.Corpus.Episodes.{default_episode_config, episode_less, assemble_episodes, FailureEpisode}
use aha.Corpus.Episodes.Shape.{IsWellFormed}
use aha.Corpus.Episodes.Invariant.{assemble_episodes-IsWellFormed}

abbrev seconds : Bytes → Option ℤ
seconds s = some (pos (length s))

abbrev run : Bytes → Bytes → Bool → ToolInvocation
run entry family failed = record {
  session_key = codes "s";
  entry_id = entry;
  line_no = pos 0;
  tool_key = [];
  tool_use_id = [];
  ordinal = pos 0;
  tool_name = codes "bash";
  command_family = family;
  command = family;
  exit_code = pos 0;
  exit_code_valid = true;
  is_error = failed;
  error_signature = [];
  outcome_text = [];
  outcome_observed = true;
  timestamp = entry;
  project_key = [];
  machine_id = [];
}

abbrev three_runs : List ToolInvocation
three_runs =
    run (codes "ccc") (codes "go test") false
    ∷ run (codes "a") (codes "go test") true
    ∷ run (codes "bb") (codes "go build") false
    ∷ []

paths_of : List FailureEpisode → List (Option (List Bytes))
paths_of [] = []
paths_of (ep ∷ eps) = ep.resolution_path ∷ paths_of eps

three_runs_path :
    paths_of (assemble_episodes seconds default_episode_config three_runs)
    ≡ some (codes "go build" ∷ codes "go test" ∷ []) ∷ []
unfolding paths_of assemble_episodes sort_stable has put text_eq assemble_session sort_invocations
    get parse_timestamp int_eq int_ltb delete within_budget sub_times ◌+ℤ◌ ◌-ℤ◌ neg episode_less
    resolve text_ltb
three_runs_path = refl

assemble_episodes-IsWellFormed_example :
    All
      (IsWellFormed seconds default_episode_config)
      (assemble_episodes seconds default_episode_config three_runs)
    × InOrder episode_less (assemble_episodes seconds default_episode_config three_runs)
unfolding int_ltb
assemble_episodes-IsWellFormed_example =
    assemble_episodes-IsWellFormed seconds default_episode_config three_runs
      ((cc, refl), ((cc, refl), ((cc, refl), tt)))
