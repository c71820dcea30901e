-- ===== src/Text/Path.antt =====
-- `path.IsAbs` and `path.Clean` of package path, on the components between slashes.
use aha.Prelude.{Bool, List, [], ◌∷◌, ◌++◌, reverse, if◌then◌else◌, ◌≡◌, refl}
use aha.Text.Equality.{Bytes, codes, text_eq}
use aha.Text.Affix.{has_prefix}
use aha.Text.Split.{split}

abbrev pub slash : Bytes
slash = b'/' ∷ []

unfoldable pub is_abs : Bytes → Bool
is_abs name = has_prefix name slash

-- `..` goes up one component where there is one to leave, and vanishes at the root. The components
-- so far are in reverse.
step_up : Bool → List Bytes → List Bytes
step_up rooted [] = if rooted then [] else codes ".." ∷ []
step_up rooted (c ∷ cs) = if text_eq c (codes "..") then codes ".." ∷ c ∷ cs else cs

walk : Bool → List Bytes → List Bytes → List Bytes
unfolding step_up
walk rooted done [] = done
walk rooted done (c ∷ cs) =
    walk rooted
      (if text_eq c []
        then done
        else if text_eq c (codes ".")
        then done
        else if text_eq c (codes "..")
        then step_up rooted done
        else c ∷ done)
      cs

join_slash : List Bytes → Bytes
join_slash [] = []
join_slash (c ∷ []) = c
join_slash (c ∷ d ∷ cs) = c ++ (b'/' ∷ join_slash (d ∷ cs))

or_dot : Bytes → Bytes
or_dot s = if text_eq s [] then codes "." else s

unfoldable pub clean : Bytes → Bytes
unfolding walk join_slash or_dot
clean name =
    let rooted = is_abs name in
    let body = join_slash (reverse (walk rooted [] (split name b'/'))) in
    if rooted then b'/' ∷ body else or_dot body

clean_examples :
    (clean (codes "a//b/./c/../d/") ≡ codes "a/b/d")
    × (clean (codes "../../x") ≡ codes "../../x")
    × (clean (codes "/../x") ≡ codes "/x")
    × (clean [] ≡ codes ".")
unfolding clean is_abs split text_eq has_prefix
clean_examples = (refl, refl, refl, refl)
