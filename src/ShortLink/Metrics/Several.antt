-- ===== src/ShortLink/Metrics/Several.antt =====
-- Several occurrences in a row, as the callers of src/ShortLinkMetrics.cpp record them.
use hao_short_link.Prelude.{
  Bool-cases, List, [], ap, bytes_eq, if◌then◌else◌, inl, inr, nat_eq, refl, ℕ, ◌%◌, ◌++◌, ◌+◌, ◌^◌,
  ◌∙◌, ◌∷◌, ◌≡◌,
}
use hao_short_link.Prelude.Int.{int_eq}
use hao_short_link.Prelude.Map.{pair_eq}
use hao_short_link.ShortLink.Metrics.{ShortLinkMetrics}
use hao_short_link.ShortLink.Metrics.Counts.{
  Series, WellSized, count, count-record_series, count-same, record_series, record_series-WellSized,
  same_series,
}

-- A counter of a series after the given occurrences.
abbrev pub bumped : List Series → Series → ℕ → ℕ
bumped [] s n = n
bumped (e ∷ es) s n = bumped es s (if same_series e s then (n + 1) % 2 ^ 64 else n)

abbrev pub record_all : List Series → ShortLinkMetrics → ShortLinkMetrics
record_all [] m = m
record_all (e ∷ es) m = record_all es (record_series e m)

pub record_all-snoc :
    (es : List Series) (e : Series) (m : ShortLinkMetrics)
    → record_all (es ++ (e ∷ [])) m ≡ record_series e (record_all es m)
record_all-snoc [] e m = refl
record_all-snoc (e' ∷ es) e m = record_all-snoc es e (record_series e' m)

count-bump :
    (e s : Series) (m : ShortLinkMetrics)
    → WellSized m
    → count s (record_series e m)
      ≡ (if same_series e s then (count s m + 1) % 2 ^ 64 else count s m)
count-bump e s m sized = elim (Bool-cases (same_series e s)) [
  | inl same ↦ rw same (
      rw same at (count-record_series e s m sized)
      ∙ ap (λ n. (n + 1) % 2 ^ 64) (count-same e s m same))
  | inr other ↦ rw other (rw other at (count-record_series e s m sized))
]

pub count-record_all :
    (es : List Series) (s : Series) (m : ShortLinkMetrics)
    → WellSized m
    → count s (record_all es m) ≡ bumped es s (count s m)
count-record_all [] s m sized = refl
count-record_all (e ∷ es) s m sized =
    count-record_all es s (record_series e m) (record_series-WellSized e m sized)
    ∙ ap (bumped es s) (count-bump e s m sized)
