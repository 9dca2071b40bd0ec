-- ===== src/Dispatcher/Jobs.antt =====
-- `jobStarted`, `jobFinished` and `jobsArePending`: the counts of outstanding work, over the integers.
use pysnmp.Base.{
  ==_iff, Bool, Bool-cases, List, Option, [], ap, arith, false, if◌then◌else◌, inl, inr, leb, none,
  refl, some, suc, sym, true, zero, ℕ, ◌+◌, ◌-◌, ◌==◌, ◌↔◌, ◌∙◌, ◌∷◌, ◌≡◌, ◌≤◌,
}
use pysnmp.Base.Eq.{nat_eq}
use pysnmp.Base.Int.{add_nat, negsuc, pos, sub_nat, ℤ}
use pysnmp.Base.Dict.{Dict, insert, lookup, lookup-insert, lookup-remove, remove}

abbrev pub is_zero : ℤ → Bool
is_zero (pos m) = m == 0
is_zero (negsuc m) = false

abbrev pub Jobs : Type 0
Jobs = Dict ℕ ℤ

abbrev pub add_to : Option ℤ → ℕ → ℤ
add_to none count = pos count
add_to (some x) count = add_nat x count

unfoldable pub job_started : ℕ → ℕ → Jobs → Jobs
job_started job count jobs = insert job (add_to (lookup job jobs) count) jobs

abbrev pub finish_found : ℕ → ℕ → Jobs → Option ℤ → Option Jobs
finish_found job count jobs none = none
finish_found job count jobs (some x) =
    if is_zero (sub_nat x count)
    then some (remove job jobs)
    else some (insert job (sub_nat x count) jobs)

-- `jobFinished`, `none` for the `KeyError` of an unknown job.
unfoldable pub job_finished : ℕ → ℕ → Jobs → Option Jobs
job_finished job count jobs = finish_found job count jobs (lookup job jobs)

abbrev pub jobs_are_pending : Jobs → Bool
jobs_are_pending [] = false
jobs_are_pending (entry ∷ jobs) = true

-- A history of calls, run from the first.
pub data JobEvent : Type 0 where
  started finished : ℕ → ℕ → JobEvent

abbrev and_then : Option Jobs → (Jobs → Option Jobs) → Option Jobs
and_then none f = none
and_then (some jobs) f = f jobs

pub run : List JobEvent → Jobs → Option Jobs
run [] jobs = some jobs
run (started job count ∷ events) jobs = run events (job_started job count jobs)
run (finished job count ∷ events) jobs = and_then (job_finished job count jobs) (run events)

-- What is outstanding of each job before and after a history in which counts are positive and no more
-- is finished than is outstanding.
abbrev pub Balance : Type 0
Balance = ℕ → ℕ

abbrev pub more : ℕ → ℕ → Balance → Balance
more job count b j = if job == j then b j + count else b j

abbrev pub less : ℕ → ℕ → Balance → Balance
less job count b j = if job == j then b j - count else b j

abbrev pub final : List JobEvent → Balance → Balance
final [] b = b
final (started job count ∷ events) b = final events (more job count b)
final (finished job count ∷ events) b = final events (less job count b)

abbrev pub Fits : List JobEvent → Balance → Type 0
Fits [] b = Unit
Fits (started job count ∷ events) b = (1 ≤ count) × Fits events (more job count b)
Fits (finished job count ∷ events) b =
    (1 ≤ count) × (count ≤ b job) × Fits events (less job count b)

abbrev pub entry_of : ℕ → Option ℤ
entry_of zero = none
entry_of (suc n) = some (pos (suc n))

pub IsBalance : Balance → Jobs → Type 0
IsBalance b jobs = (j : ℕ) → lookup j jobs ≡ entry_of (b j)

add_to_lem : (n count : ℕ) → 1 ≤ count → some (add_to (entry_of n) count) ≡ entry_of (n + count)
add_to_lem zero zero h = absurd (omega arith)
add_to_lem zero (suc count) h = let z : 0 + suc count ≡ suc count = omega arith in rw z refl
add_to_lem (suc n) count h = let z : suc n + count ≡ suc (n + count) = omega arith in rw z refl

started-IsBalance :
    (job count : ℕ) (b : Balance) (jobs : Jobs)
    → IsBalance b jobs
    → 1 ≤ count
    → IsBalance (more job count b) (job_started job count jobs)
unfolding IsBalance job_started
started-IsBalance job count b jobs h p j =
    lookup-insert job j (add_to (lookup job jobs) count) jobs ∙ elim (Bool-cases (job == j)) [
      | inl same ↦ rw same (
          ap (λ o. some (add_to o count)) (h job)
          ∙ (add_to_lem (b job) count p ∙ ap (λ i. entry_of (b i + count)) ((==_iff job j).0 same)))
      | inr differ ↦ rw differ (h j)
    ]

finished-IsBalance :
    (job count : ℕ) (b : Balance) (jobs : Jobs)
    → IsBalance b jobs
    → 1 ≤ count
    → count ≤ b job
    → (jobs' : Jobs) × (job_finished job count jobs ≡ some jobs')
      × IsBalance (less job count b) jobs'
unfolding IsBalance job_finished
finished-IsBalance job count b jobs h p q =
    let (jobs', e, l) = finish_entry (b job) q in
    (jobs', ap (finish_found job count jobs) (h job) ∙ e, λ j. l j ∙ other j)
  where
    finish_entry :
        (n : ℕ)
        → count ≤ n
        → (jobs' : Jobs) × (finish_found job count jobs (entry_of n) ≡ some jobs')
          × ((j : ℕ) → lookup j jobs' ≡ (if job == j then entry_of (n - count) else lookup j jobs))
    finish_entry zero k = absurd (omega arith)
    finish_entry (suc n) k = elim (Bool-cases (suc n - count == 0)) [
      | inl over ↦
          let z : suc n - count ≡ 0 = ground arith in
          let fits : leb count (suc n) ≡ true = ground arith in
          (remove job jobs, rw (fits, over) refl, λ j. rw z (lookup-remove job j jobs))
      | inr left ↦
          let fits : leb count (suc n) ≡ true = ground arith in
          (
            insert job (pos (suc n - count)) jobs,
            rw (fits, left) refl,
            λ j. lookup-insert job j (pos (suc n - count)) jobs ∙ rest j (suc n - count) left,
          )
    ]
      where
        rest :
            (j m : ℕ)
            → (m == 0) ≡ false
            → (if job == j then some (pos m) else lookup j jobs)
              ≡ (if job == j then entry_of m else lookup j jobs)
        rest j zero k = cc
        rest j (suc m) k = refl

    other :
        (j : ℕ)
        → (if job == j then entry_of (b job - count) else lookup j jobs)
          ≡ entry_of (less job count b j)
    other j = elim (Bool-cases (job == j)) [
      | inl same ↦ rw same (ap (λ i. entry_of (b i - count)) ((==_iff job j).0 same))
      | inr differ ↦ rw differ (h j)
    ]

run_lem :
    (events : List JobEvent) (b : Balance) (jobs : Jobs)
    → IsBalance b jobs
    → Fits events b
    → (jobs' : Jobs) × (run events jobs ≡ some jobs') × IsBalance (final events b) jobs'
unfolding run
run_lem [] b jobs h f = (jobs, refl, h)
run_lem (started job count ∷ events) b jobs h f =
    run_lem events (more job count b) (job_started job count jobs)
      (started-IsBalance job count b jobs h f.0) f.1
run_lem (finished job count ∷ events) b jobs h f =
    let (jobs1, e, h1) = finished-IsBalance job count b jobs h f.0 f.1 in
    let (jobs2, e2, h2) = run_lem events (less job count b) jobs1 h1 f.2 in
    (jobs2, ap (λ o. and_then o (run events)) e ∙ e2, h2)

pending_lem :
    (b : Balance) (jobs : Jobs)
    → IsBalance b jobs
    → (jobs_are_pending jobs ≡ false) ↔ ((j : ℕ) → b j ≡ 0)
unfolding IsBalance lookup
pending_lem b [] h = (λ e j. empty_entry (b j) (sym (h j)), λ e. refl)
  where
    empty_entry : (n : ℕ) → entry_of n ≡ none → n ≡ 0
    empty_entry zero e = refl
    empty_entry (suc n) e = cc
pending_lem b ((j, x) ∷ jobs) h = (
  λ e. cc,
  λ z. absurd (
      let bad : some x ≡ none = sym (rw ((==_iff j j).1 refl) refl) ∙ (h j ∙ ap entry_of (z j)) in
      cc),
)

-- From no jobs, a history in which counts are positive and nothing is finished that is not outstanding
-- never raises, and the loop is kept running exactly as long as some job has work outstanding.
pub jobs_are_pending_lem :
    (events : List JobEvent)
    → Fits events (λ j. 0)
    → (jobs : Jobs) × (run events [] ≡ some jobs)
      × ((jobs_are_pending jobs ≡ false) ↔ ((j : ℕ) → final events (λ j. 0) j ≡ 0))
unfolding IsBalance lookup
jobs_are_pending_lem events f =
    let (jobs, e, h) = run_lem events (λ j. 0) [] (λ j. refl) f in
    (jobs, e, pending_lem (final events (λ j. 0)) jobs h)
