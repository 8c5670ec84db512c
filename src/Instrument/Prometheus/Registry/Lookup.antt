-- ===== src/Instrument/Prometheus/Registry/Lookup.antt =====
-- What `get_metric` finds behind `register_metric`.

use cppnet.Prelude.{
  ℕ, List, [], ◌∷◌, ◌≡◌, if◌then◌else◌, none, some, true, arith, refl, ap, ap₂, ◌∙◌, sym,
  Bool-cases, inl, inr, Option-cases, length, ◌&&◌, ◌++◌,
}
use cppnet.Prelude.Strings.{same_string, same_string_refl, same_string_sound}
use cppnet.Instrument.Prometheus.Metric.{Labels}
use cppnet.Instrument.Prometheus.Registry.{
  same_labels, find_labels, emplace_labels, Registry, find_name, emplace_name, get_metric,
  register_metric,
}

same_labels_refl : (ls : Labels) → same_labels ls ls ≡ true
same_labels_refl [] = refl
same_labels_refl (l ∷ ls) = rw (same_string_refl l.0, same_string_refl l.1) (same_labels_refl ls)

same_labels_sound : (ks ls : Labels) → same_labels ks ls ≡ true → ks ≡ ls
same_labels_sound [] [] h = refl
same_labels_sound [] (l ∷ ls) h = absurd (cc (h))
same_labels_sound (k ∷ ks) [] h = absurd (cc (h))
same_labels_sound (k ∷ ks) (l ∷ ls) h =
    let first : same_string k.0 l.0 ≡ true = ground (arith, h) in
    let second : same_string k.1 l.1 ≡ true = ground (arith, h) in
    let rest : same_labels ks ls ≡ true = ground (arith, h) in
    ap₂ (λ (p : List ℕ × List ℕ) ps. p ∷ ps)
      (ap₂ (λ a b. (a, b)) (same_string_sound k.0 l.0 first) (same_string_sound k.1 l.1 second))
      (same_labels_sound ks ls rest)

find_labels-emplace_labels :
    (labels labels' : Labels) (ref : ℕ) (table : List (Labels × ℕ))
    → find_labels labels table ≡ none
    → find_labels labels' (emplace_labels labels ref table)
      ≡ (if same_labels labels' labels then some ref else find_labels labels' table)
find_labels-emplace_labels labels labels' ref [] h = refl
find_labels-emplace_labels labels labels' ref (e ∷ table) h =
    elim (Bool-cases (same_labels labels e.0)) [
      | inl same ↦ absurd (ground (arith, h, same))
      | inr other ↦ elim (Bool-cases (same_labels labels' e.0)) [
        | inl here ↦ elim (Bool-cases (same_labels labels' labels)) [
          | inl k ↦
              let clash : same_labels labels e.0 ≡ true =
                ap (λ l. same_labels l e.0) (sym (same_labels_sound labels' labels k)) ∙ here in
              absurd (cc (clash, other))
          | inr k ↦ rw (other, here, k) refl
        ]
        | inr there ↦
            rw (other, there)
              (find_labels-emplace_labels labels labels' ref table (ground (arith, h, other)))
      ]
    ]

find_name-emplace_name :
    (name name' : List ℕ) (labels labels' : Labels) (ref : ℕ)
    (lookup : List (List ℕ × List (Labels × ℕ)))
    → find_name name labels lookup ≡ none
    → find_name name' labels' (emplace_name name labels ref lookup) ≡ (
        if same_string name' name && same_labels labels' labels
        then some ref
        else find_name name' labels' lookup)
find_name-emplace_name name name' labels labels' ref [] h =
    elim (Bool-cases (same_string name' name)) [ inl e ↦ rw e refl | inr e ↦ rw e refl ]
find_name-emplace_name name name' labels labels' ref (e ∷ lookup) h =
    elim (Bool-cases (same_string name e.0)) [
      | inl same ↦
          let names : same_string name' name ≡ same_string name' e.0 =
            ap (same_string name') (same_string_sound name e.0 same) in
          let unknown : find_labels labels e.1 ≡ none = rw same at (h) in
          elim (Bool-cases (same_string name' e.0)) [
            | inl here ↦
                rw (same, names ∙ here, here)
                  (find_labels-emplace_labels labels labels' ref e.1 unknown)
            | inr there ↦ rw (same, names ∙ there, there) refl
          ]
      | inr other ↦ elim (Bool-cases (same_string name' e.0)) [
        | inl here ↦ elim (Bool-cases (same_string name' name)) [
          | inl k ↦
              let clash : same_string name e.0 ≡ true =
                ap (λ n. same_string n e.0) (sym (same_string_sound name' name k)) ∙ here in
              absurd (cc (clash, other))
          | inr k ↦ rw (other, here, k) refl
        ]
        | inr there ↦
            rw (other, there)
              (find_name-emplace_name name name' labels labels' ref lookup (rw other at (h)))
      ]
    ]

-- A name and labels that are known keep their reference.
find_name-known :
    (name name' : List ℕ) (labels labels' : Labels) (ref : ℕ)
    (lookup : List (List ℕ × List (Labels × ℕ)))
    → find_name name labels lookup ≡ some ref
    → find_name name' labels' lookup ≡ (
        if same_string name' name && same_labels labels' labels
        then some ref
        else find_name name' labels' lookup)
find_name-known name name' labels labels' ref lookup h =
    elim (Bool-cases (same_string name' name)) [
      | inr e ↦ rw e refl
      | inl e ↦ elim (Bool-cases (same_labels labels' labels)) [
        | inr k ↦ rw (e, k) refl
        | inl k ↦
            let known : find_name name' labels' lookup ≡ some ref =
              ap₂ (λ n ls. find_name n ls lookup) (same_string_sound name' name e)
                (same_labels_sound labels' labels k)
              ∙ h in
            rw (e, k) known
      ]
    ]

module _ {M : Type 0} where
  register_metric-known :
      (name : List ℕ) (labels : Labels) (m : M) (r : Registry M) (ref : ℕ)
      → find_name name labels r.lookup ≡ some ref
      → register_metric name labels m r ≡ (ref, r)
  unfolding register_metric get_metric
  register_metric-known name labels m r ref h = rw (register_metric, h) refl

  register_metric-new :
      (name : List ℕ) (labels : Labels) (m : M) (r : Registry M)
      → find_name name labels r.lookup ≡ none
      → register_metric name labels m r ≡ (
        length r.metrics,
        record r {
          metrics = r.metrics ++ (m ∷ []);
          lookup = emplace_name name labels (length r.metrics) r.lookup;
        },
      )
  unfolding register_metric get_metric
  register_metric-new name labels m r h = rw (register_metric, h) refl

  -- After a metric was registered, get_metric finds the reference that was returned under its name
  -- and labels, and under any others what it found before.
  pub get_metric-register_metric :
      (name name' : List ℕ) (labels labels' : Labels) (m : M) (r : Registry M)
      → get_metric name' labels' (register_metric name labels m r).1 ≡ (
          if same_string name' name && same_labels labels' labels
          then some (register_metric name labels m r).0
          else get_metric name' labels' r)
  unfolding get_metric
  get_metric-register_metric name name' labels labels' m r =
      let both = same_string name' name && same_labels labels' labels in
      elim (Option-cases (find_name name labels r.lookup)) [
        | inl unknown ↦
            let e = register_metric-new name labels m r unknown in
            ap (λ p. get_metric name' labels' p.1) e
            ∙ find_name-emplace_name name name' labels labels' (length r.metrics) r.lookup unknown
            ∙ sym (
                ap (λ (p : ℕ × Registry M). if both then some p.0 else get_metric name' labels' r)
                  e)
        | inr (ref, known) ↦
            let e = register_metric-known name labels m r ref known in
            ap (λ p. get_metric name' labels' p.1) e
            ∙ find_name-known name name' labels labels' ref r.lookup known
            ∙ sym (
                ap (λ (p : ℕ × Registry M). if both then some p.0 else get_metric name' labels' r)
                  e)
      ]
