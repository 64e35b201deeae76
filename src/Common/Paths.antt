-- ===== src/Common/Paths.antt =====
-- Azure resource IDs written from their segments, and how the operator reads them back.
use policy_operator.Base.{
  String, ◌<>◌, ◌≡◌, List, [], ◌∷◌, false, ◌==◌, Bool-cases, inl, inr, eq_iff,
}
use policy_operator.Base.Lists.{All}
use policy_operator.Base.Text.{split_slash, split-append, NoSlash, split_of_NoSlash}
use text.Mathlib.TextLemmas.{append-nil, nil-append, append-ne-nil_of_right_ne-nil, cons-ne-nil}

-- "/a/b/c" from the segments a, b and c
abbrev pub path_of : List String → String
path_of [] = ""
path_of (s ∷ ss) = String.◌∷◌ "/" (s <> path_of ss)

split-append-path_of :
    (s : String) (ss : List String)
    → NoSlash s
    → All NoSlash ss
    → split_slash (s <> path_of ss) ≡ s ∷ ss
split-append-path_of s [] h k = rw append-nil (split_of_NoSlash s h)
split-append-path_of s (q ∷ qs) h (p, k) =
    rw (split-append s (q <> path_of qs), split_of_NoSlash s h, split-append-path_of q qs p k)

-- Splitting a path gives its segments, behind the empty one in front of the first slash.
pub split-path_of : (ss : List String) → All NoSlash ss → split_slash (path_of ss) ≡ "" ∷ ss
split-path_of ss h = rw (nil-append (path_of ss)) at (split-append-path_of "" ss tt h)

-- A path with a slash is not the empty text.
pub not_empty : (s t : String) → (s <> String.◌∷◌ "/" t == "") ≡ false
not_empty s t = elim (Bool-cases (s <> String.◌∷◌ "/" t == "")) [
  | inl same ↦ absurd (append-ne-nil_of_right_ne-nil s (cons-ne-nil "/" t) ((eq_iff _ _).0 same))
  | inr differ ↦ differ
]
