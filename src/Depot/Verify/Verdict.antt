-- ===== src/Depot/Verify/Verdict.antt =====
-- A part of an audit, and what its problems say: parts in sequence, a problem, a pass.
use aha.Prelude.{Bool, true, false, List, [], ◌∷◌, ◌++◌, ok, ◌≡◌, ◌≢◌, refl, ◌∙◌, All}
use aha.Text.{Bytes}
use aha.Depot.Store.{Objects, Depot, ◌>>=◌, pure, check_context}
use aha.Depot.Store.Quiet.{quietly, check_context-quietly}
use aha.Depot.Store.Steps.{bind_known}
use aha.Depot.Store.Reads.{value}
use aha.Depot.Codec.{Externals}
use aha.Depot.Init.{open_blob, has_blob}
use aha.Depot.Verify.{Audit, Problem, report_problem, problem_unless_cancelled}

module _ (x : Externals) (deep : Bool) (o : Objects) where
  -- A blob is there, and in deep mode its bytes are its content.
  abbrev pub BlobOk : Bool → Bytes → Type 0
  BlobOk false key = value (has_blob x key) o ≡ ok true
  BlobOk true key = (content : Bytes) × (value (open_blob x key) o ≡ ok content)

  -- While there is no problem, the checked blobs are as they should be.
  abbrev pub Clean : Audit → Type 0
  Clean a = a.problems ≡ [] → All (BlobOk deep) a.checked_blobs

  -- A part of the audit returns, keeps the checked blobs right, and adds a problem exactly unless `Q`.
  pub record Verdict (a : Audit) (m : Depot Audit) (Q C : Type 0) : Type 0 where
    pub result : Audit
    pub runs : m (quietly o) ≡ (ok result, quietly o)
    pub clean : Clean a → Clean result
    pub sound : Clean a → result.problems ≡ [] → (a.problems ≡ []) × Q
    pub complete : a.problems ≡ [] → C → result.problems ≡ []

  pub both :
      (a : Audit) (m : Depot Audit) (f : Audit → Depot Audit) {Q R C D : Type 0}
      → Verdict a m Q C
      → ((b : Audit) → Verdict b (f b) R D)
      → Verdict a (m >>= f) (Q × R) (C × D)
  both a m f v k =
      let w = k v.result in
      record {
        result = w.result;
        runs = bind_known m f (quietly o) v.runs ∙ w.runs;
        clean = λ c. w.clean (v.clean c);
        sound = λ c e.
            let (e1, r) = w.sound (v.clean c) e in let (e2, q) = v.sound c e1 in (e2, (q, r));
        complete = λ e (q, r). w.complete (v.complete e q) r;
      }

  reported : (ps : List Problem) (p : Problem) → ps ++ p ∷ [] ≢ []
  reported [] p e = cc
  reported (q ∷ ps) p e = cc

  pub problem-Verdict :
      (a b : Audit) (p : Problem) (Q C : Type 0) → ¬ C → Verdict a (pure (report_problem p b)) Q C
  unfolding report_problem pure
  problem-Verdict a b p Q C n = record {
    result = report_problem p b;
    runs = refl;
    clean = λ c e. absurd (reported b.problems p e);
    sound = λ c e. absurd (reported b.problems p e);
    complete = λ e q. absurd (n q);
  }

  pub pass-Verdict :
      (a : Audit) (Q C : Type 0) → (Clean a → a.problems ≡ [] → Q) → Verdict a (pure a) Q C
  unfolding pure
  pass-Verdict a Q C k = record {
    result = a;
    runs = refl;
    clean = λ c. c;
    sound = λ c e. (e, k c e);
    complete = λ e q. e;
  }

  -- The same part, for an operation that runs the same way and a condition that says the same.
  pub as_Verdict :
      (a : Audit) (m n : Depot Audit) {Q R C D : Type 0}
      → m (quietly o) ≡ n (quietly o)
      → (Q → R)
      → (D → C)
      → Verdict a n Q C
      → Verdict a m R D
  as_Verdict a m n e f g v = record {
    result = v.result;
    runs = e ∙ v.runs;
    clean = v.clean;
    sound = λ c k. let (e1, q) = v.sound c k in (e1, f q);
    complete = λ e1 r. v.complete e1 (g r);
  }

  pub unless_cancelled-Verdict :
      (a b : Audit) (p : Problem) (Q C : Type 0)
      → ¬ C
      → Verdict a (problem_unless_cancelled p b) Q C
  unfolding problem_unless_cancelled
  unless_cancelled-Verdict a b p Q C n =
      as_Verdict a _ (pure (report_problem p b))
        (bind_known check_context _ (quietly o) (check_context-quietly o)) (λ q. q) (λ q. q)
        (problem-Verdict a b p Q C n)
