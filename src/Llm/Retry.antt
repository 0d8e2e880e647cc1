-- ===== src/Llm/Retry.antt =====
-- app/llm/client.py: the retries of a call of the model.
use mathlib.Core.Path.{subst}
use llm_wiki_engine.Prelude.{
  ℕ, zero, suc, ◌+◌, ◌≤◌, ◌<◌, ◌≡◌, refl, sym, ap, ◌∙◌, Bool, true, false, not, ◌||◌, List, [], ◌∷◌,
  ◌++◌, any, length, leb, if◌then◌else◌, Bool-cases, inl, inr, arith, ◌⊎◌,
}
use llm_wiki_engine.Text.{Text, codes}
use llm_wiki_engine.Text.{occurs_in}

-- An exception: the name of its class, and its text.
pub record Failure : Type 0 where
  pub name : Text
  pub message : Text

pub data Result (A : Type 0) : Type 0 where
  ok : A → Result A
  failed : Failure → Result A

abbrev pub max_llm_attempts : ℕ
max_llm_attempts = 4

-- `LLM_RETRY_DELAYS[min(attempt - 1, 2)]`, in seconds.
abbrev pub llm_retry_delay : ℕ → ℕ
llm_retry_delay zero = 1
llm_retry_delay (suc zero) = 1
llm_retry_delay (suc (suc zero)) = 2
llm_retry_delay (suc (suc (suc n))) = 4

abbrev pub transient_error_markers : List Text
transient_error_markers =
    codes "internalservererror"
    ∷ codes "upstream error"
    ∷ codes "rate limit"
    ∷ codes "ratelimit"
    ∷ codes "timeout"
    ∷ codes "timed out"
    ∷ codes "apiconnectionerror"
    ∷ codes "connection error"
    ∷ codes "connection reset"
    ∷ codes "temporarily unavailable"
    ∷ codes "service unavailable"
    ∷ codes "bad gateway"
    ∷ codes "gateway timeout"
    ∷ codes "status code: 500"
    ∷ codes "status code: 502"
    ∷ codes "status code: 503"
    ∷ codes "status code: 504"
    ∷ []

-- `lower` is `str.lower`; `fn` is the n-th call.
module _ (lower : Text → Text) where
  unfoldable pub is_transient_llm_error : Failure → Bool
  unfolding occurs_in
  is_transient_llm_error e =
      any (λ marker. occurs_in marker (lower (lower e.name ++ (codes ": " ++ e.message))))
        transient_error_markers

  module _ {A : Type 0} (fn : ℕ → Result A) where
    -- How the handler goes on after an exception: it raises it, or sleeps and has the rest follow.
    unfoldable pub on_failure : ℕ → Failure → Result A × List ℕ → Result A × List ℕ
    on_failure attempt e rest =
        if leb max_llm_attempts attempt || not (is_transient_llm_error e)
        then (failed e, [])
        else (rest.0, llm_retry_delay attempt ∷ rest.1)

    abbrev pub settle_attempt : ℕ → Result A → Result A × List ℕ → Result A × List ℕ
    settle_attempt attempt (ok a) rest = (ok a, [])
    settle_attempt attempt (failed e) rest = on_failure attempt e rest

    -- The loop with the attempts left besides this one; the result and the delays slept.
    unfoldable pub try_from : ℕ → ℕ → Result A × List ℕ
    try_from zero attempt = settle_attempt attempt (fn attempt) (fn attempt, [])
    try_from (suc left) attempt = settle_attempt attempt (fn attempt) (try_from left (suc attempt))

    unfoldable pub with_llm_retries : Result A × List ℕ
    unfolding try_from
    with_llm_retries = try_from 3 1

    -- A failure that is tried again, and an outcome after which nothing is tried.
    abbrev pub Passes : Result A → Type 0
    Passes (ok a) = ⊥
    Passes (failed e) = is_transient_llm_error e ≡ true

    abbrev pub Stops : ℕ → Result A → Type 0
    Stops n (ok a) = Unit
    Stops n (failed e) = (is_transient_llm_error e ≡ false) ⊎ (max_llm_attempts ≤ n)

    -- What the calls from an attempt on come to.
    pub record Ended (attempt : ℕ) (r : Result A × List ℕ) : Type 0 where
      pub few : length r.1 + attempt ≤ max_llm_attempts
      pub last : r.0 ≡ fn (length r.1 + attempt)
      pub passed : (i : ℕ) → i < length r.1 → Passes (fn (i + attempt))
      pub stops : Stops (length r.1 + attempt) r.0

    Ended-now :
        (attempt : ℕ) (o : Result A)
        → attempt ≤ max_llm_attempts
        → fn attempt ≡ o
        → Stops attempt o
        → Ended attempt (o, [])
    Ended-now attempt o h e s = record {
      few = omega (arith, h);
      last = sym e ∙ ap fn zero_plus;
      passed = λ i lt. absurd (omega (arith, lt));
      stops = subst (λ n. Stops n o) zero_plus s;
    }
      where
        zero_plus : attempt ≡ 0 + attempt
        zero_plus = omega arith

    Ended-later :
        (attempt : ℕ) (d : ℕ) (r : Result A × List ℕ)
        → Passes (fn attempt)
        → Ended (suc attempt) r
        → Ended attempt (r.0, d ∷ r.1)
    Ended-later attempt d r p h = record {
      few = omega (arith, h.few);
      last = h.last ∙ ap fn shift;
      passed = go;
      stops = subst (λ n. Stops n r.0) shift h.stops;
    }
      where
        shift : length r.1 + suc attempt ≡ suc (length r.1) + attempt
        shift = omega arith

        go : (i : ℕ) → i < suc (length r.1) → Passes (fn (i + attempt))
        go zero lt = subst (λ n. Passes (fn n)) first p
          where
            first : attempt ≡ 0 + attempt
            first = omega arith
        go (suc i) lt = subst (λ n. Passes (fn n)) next (h.passed i (omega (arith, lt)))
          where
            next : i + suc attempt ≡ suc i + attempt
            next = omega arith

    settle_attempt-Ended :
        (attempt : ℕ) (o : Result A) (rest : Result A × List ℕ)
        → attempt ≤ max_llm_attempts
        → fn attempt ≡ o
        → (attempt < max_llm_attempts → Ended (suc attempt) rest)
        → Ended attempt (settle_attempt attempt o rest)
    unfolding on_failure
    settle_attempt-Ended attempt (ok a) rest h e k = Ended-now attempt (ok a) h e tt
    settle_attempt-Ended attempt (failed x) rest h e k =
        elim (Bool-cases (leb max_llm_attempts attempt)) [
          | inl q ↦ rw q (Ended-now attempt (failed x) h e (inr (ground (arith, q))))
          | inr q ↦ elim (Bool-cases (is_transient_llm_error x)) [
            | inl t ↦
                rw (q, t)
                  (Ended-later attempt (llm_retry_delay attempt) rest (rw e t)
                    (k (ground (arith, q))))
            | inr t ↦ rw (q, t) (Ended-now attempt (failed x) h e (inl t))
          ]
        ]

    try_from-Ended :
        (left attempt : ℕ)
        → left + attempt ≡ max_llm_attempts
        → Ended attempt (try_from left attempt)
    unfolding try_from
    try_from-Ended zero attempt h =
        settle_attempt-Ended attempt (fn attempt) (fn attempt, []) (omega (arith, h)) refl
          (λ lt. absurd (omega (arith, h, lt)))
    try_from-Ended (suc left) attempt h =
        settle_attempt-Ended attempt (fn attempt) (try_from left (suc attempt)) (omega (arith, h))
          refl (λ lt. try_from-Ended left (suc attempt) (omega (arith, h)))

    -- At most four calls are made, with a pause between them, and the result is that of the last one:
    -- every call before it failed with a transient error, and it succeeded, failed with another
    -- error, or was the fourth.
    pub with_llm_retries-Ended : Ended 1 with_llm_retries
    unfolding with_llm_retries
    with_llm_retries-Ended = try_from-Ended 3 1 (omega arith)
