-- ===== src/Agent/Anomaly/Entropy.antt =====
-- Shannon entropy: `_shannon_entropy` of agent/security/tier3_ml.py over characters, and
-- agent/security/content/entropy.py over bytes.
use aiss_waf_server.Prelude.{ℕ, ◌+◌, Bool, List, [], ◌∷◌, length, ◌==◌, if◌then◌else◌}
use aiss_waf_server.Prelude.Text.{Text}
use aiss_waf_server.Agent.Floats.{Floats, lt}

-- Counter(text), in the order of first occurrence.
bump : ℕ → List (ℕ × ℕ) → List (ℕ × ℕ)
bump c [] = (c, 1) ∷ []
bump c ((a, n) ∷ counts) = if a == c then (a, n + 1) ∷ counts else (a, n) ∷ bump c counts

counter_onto : List (ℕ × ℕ) → Text → List (ℕ × ℕ)
unfolding bump
counter_onto counts [] = counts
counter_onto counts (c ∷ s) = counter_onto (bump c counts) s

pub counter : Text → List (ℕ × ℕ)
unfolding counter_onto
counter = counter_onto []

module _ (fl : Floats) where
  -- for c in counts.values(): p = c / total; entropy -= p * math.log2(p)
  entropy_loop : ℕ → fl.F → List (ℕ × ℕ) → fl.F
  entropy_loop total entropy [] = entropy
  entropy_loop total entropy ((_, c) ∷ counts) =
      let p = fl.div (fl.of_nat c) (fl.of_nat total) in
      entropy_loop total (fl.sub entropy (fl.mul p (fl.log2 p))) counts

  pub text_entropy : Text → fl.F
  unfolding entropy_loop counter
  text_entropy [] = fl.hundredths 0
  text_entropy (c ∷ s) =
      fl.round 4 (entropy_loop (length (c ∷ s)) (fl.hundredths 0) (counter (c ∷ s)))

  -- The loop of `shannon_entropy`, with its test `p > 0`.
  bytes_loop : ℕ → fl.F → List (ℕ × ℕ) → fl.F
  bytes_loop total entropy [] = entropy
  bytes_loop total entropy ((_, c) ∷ counts) =
      let p = fl.div (fl.of_nat c) (fl.of_nat total) in
      bytes_loop total
        (if lt fl (fl.hundredths 0) p then fl.sub entropy (fl.mul p (fl.log2 p)) else entropy)
        counts

  pub shannon_entropy : Text → fl.F
  unfolding bytes_loop counter
  shannon_entropy [] = fl.hundredths 0
  shannon_entropy (c ∷ s) = bytes_loop (length (c ∷ s)) (fl.hundredths 0) (counter (c ∷ s))

  pub is_suspicious_entropy : Text → fl.F → Bool × fl.F
  is_suspicious_entropy s threshold =
      let score = shannon_entropy s in (fl.le threshold score, score)

pub data Level : Type 0 where
  clean medium_entropy high_entropy_suspicious high_entropy_likely_encrypted : Level

pub record EntropyVerdict (fl : Floats) : Type 0 where
  pub score : fl.F
  pub suspicious : Bool
  pub level : Level

pub entropy_verdict : (fl : Floats) → Text → EntropyVerdict fl
entropy_verdict fl s =
    let score = shannon_entropy fl s in
    record {
      score = fl.round 4 score;
      suspicious = fl.le (fl.hundredths 720) score;
      level =
          if fl.le (fl.hundredths 780) score
          then high_entropy_likely_encrypted
          else if fl.le (fl.hundredths 720) score
          then high_entropy_suspicious
          else if fl.le (fl.hundredths 600) score
          then medium_entropy
          else clean;
    }
