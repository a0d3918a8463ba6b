-- ===== src/Threading/JobGroup/Completion.antt =====
-- What is known when a job group is complete.
use tge_core.Prelude.{
  ℕ, ◌+◌, ◌%◌, ◌<◌, ◌==◌, ◌≡◌, refl, ◌∙◌, ap, sym, subst, ◌⊎◌, inl, inr, true, List, [], ◌∷◌, ◌++◌,
  some, length, arith, count_if, count_if-append, count_if-le-length, length-append,
}
use tge_core.Prelude.Words.{u64_mod}
use tge_core.Threading.JobGroup.{
  State, new_state, count_job, push_job, take_job, finish_job, raise_flag, drop_pending,
  settle_dropped, is_complete,
}
use tge_core.Threading.JobGroup.Steps.{
  World, start, Step, counts, pushes, takes, passes, executes, skips, finishes, raises, drops,
  settles, ancestors_change, Reach, here, next,
}

-- How often a job is in a list.
abbrev pub times : ℕ → List ℕ → ℕ
times job = count_if (λ x. x == job)

abbrev pub sum : List ℕ → ℕ
sum [] = 0
sum (x ∷ xs) = x + sum xs

-- The jobs that the group still counts.
abbrev pub in_flight : World → ℕ
in_flight w =
    length w.arriving
    + length w.group.pending
    + length w.taken
    + length w.passed
    + w.finishing
    + sum w.settling

-- Every job submitted is somewhere, and the counter holds what is in flight.
pub record Inv (w : World) : Type 0 where
  pub places :
      (job : ℕ)
      → times job w.submitted
        ≡ times job w.arriving
          + times job w.group.pending
          + times job w.taken
          + times job w.passed
          + times job w.executed
          + times job w.skipped
          + times job w.dropped
  pub counter : w.group.active_jobs ≡ in_flight w % u64_mod

sum-append : (xs ys : List ℕ) → sum (xs ++ ys) ≡ sum xs + sum ys
sum-append [] ys = omega arith
sum-append (x ∷ xs) ys = omega (arith, sum-append xs ys)

start-Inv : Inv start
unfolding new_state
start-Inv = record { places = λ job. refl; counter = refl }

-- One entry taken out of a list.
pub times-out :
    (j : ℕ) (xs : List ℕ) (job : ℕ) (ys zs : List ℕ)
    → zs ≡ xs ++ job ∷ ys
    → times j zs ≡ times j (job ∷ []) + times j (xs ++ ys)
times-out j xs job ys zs e =
    ap (times j) e
    ∙ ground
        (arith, count_if-append (λ x. x == j) xs (job ∷ ys), count_if-append (λ x. x == j) xs ys)

length-out :
    (xs : List ℕ) (job : ℕ) (ys zs : List ℕ)
    → zs ≡ xs ++ job ∷ ys
    → length zs ≡ 1 + length (xs ++ ys)
length-out xs job ys zs e =
    ap length e ∙ omega (arith, length-append xs (job ∷ ys), length-append xs ys)

pub times-in : (j job : ℕ) (xs : List ℕ) → times j (job ∷ xs) ≡ times j (job ∷ []) + times j xs
times-in j job xs = ground arith

List-cases : (xs : List ℕ) → (xs ≡ []) ⊎ ((x : ℕ) × (rest : List ℕ) × (xs ≡ x ∷ rest))
List-cases [] = inl refl
List-cases (x ∷ rest) = inr (x, rest, refl)

take_job-cases :
    (s : State) (job : ℕ)
    → (take_job s).1 ≡ some job
    → (rest : List ℕ) × (s.pending ≡ job ∷ rest) × ((take_job s).0 ≡ record s { pending = rest })
unfolding take_job
take_job-cases s job e = elim (List-cases s.pending) [
  | inl none' ↦ absurd (ground arith)
  | inr (x, rest, p) ↦ (rest, ground arith, rw (p, take_job) refl)
]

pushes-Inv :
    (w : World) (xs : List ℕ) (job : ℕ) (ys : List ℕ)
    → w.arriving ≡ xs ++ job ∷ ys
    → Inv w
    → Inv (record w { group = push_job w.group job; arriving = xs ++ ys })
unfolding push_job
pushes-Inv w xs job ys e v = record {
  places = λ j. omega (
    arith,
    v.places j,
    times-out j xs job ys w.arriving e,
    count_if-append (λ x. x == j) w.group.pending (job ∷ []),
  );
  counter = omega (
    arith,
    v.counter,
    length-out xs job ys w.arriving e,
    length-append w.group.pending (job ∷ []),
  );
}

takes-Inv :
    (w : World) (job : ℕ)
    → (take_job w.group).1 ≡ some job
    → Inv w
    → Inv (record w { group = (take_job w.group).0; taken = job ∷ w.taken })
takes-Inv w job e v =
    let (rest, p, same) = take_job-cases w.group job e in
    subst (λ g. Inv (record w { group = g; taken = job ∷ w.taken })) (sym same)
      (record {
        places = λ j.
            omega (arith, v.places j, times-in j job w.taken, times-in j job rest, ap (times j) p);
        counter = omega (arith, v.counter, ap length p);
      })

passes-Inv :
    (w : World) (xs : List ℕ) (job : ℕ) (ys : List ℕ)
    → w.taken ≡ xs ++ job ∷ ys
    → Inv w
    → Inv (record w { taken = xs ++ ys; passed = job ∷ w.passed })
      × Inv (record w { taken = xs ++ ys; skipped = job ∷ w.skipped; finishing = w.finishing + 1 })
passes-Inv w xs job ys e v =
    let left = λ (j : ℕ). times-out j xs job ys w.taken e in
    let shorter = length-out xs job ys w.taken e in
    (
      record {
        places = λ j. omega (arith, v.places j, left j, times-in j job w.passed);
        counter = omega (arith, v.counter, shorter);
      },
      record {
        places = λ j. omega (arith, v.places j, left j, times-in j job w.skipped);
        counter = omega (arith, v.counter, shorter);
      },
    )

executes-Inv :
    (w : World) (xs : List ℕ) (job : ℕ) (ys : List ℕ)
    → w.passed ≡ xs ++ job ∷ ys
    → Inv w
    → Inv (record w { passed = xs ++ ys; executed = job ∷ w.executed; finishing = w.finishing + 1 })
executes-Inv w xs job ys e v = record {
  places =
      λ j. omega (arith, v.places j, times-out j xs job ys w.passed e, times-in j job w.executed);
  counter = omega (arith, v.counter, length-out xs job ys w.passed e);
}

drops-Inv :
    (w : World)
    → Inv w
    → Inv (record w {
      group = (drop_pending w.group).0;
      settling = length (drop_pending w.group).1 ∷ w.settling;
      dropped = (drop_pending w.group).1 ++ w.dropped;
    })
unfolding drop_pending
drops-Inv w v = record {
  places = λ j. omega (arith, v.places j, count_if-append (λ x. x == j) w.group.pending w.dropped);
  counter = omega (arith, v.counter);
}

settles-Inv :
    (w : World) (xs : List ℕ) (n : ℕ) (ys : List ℕ)
    → w.settling ≡ xs ++ n ∷ ys
    → Inv w
    → Inv (record w { group = settle_dropped w.group n; settling = xs ++ ys })
unfolding settle_dropped
settles-Inv w xs n ys e v = record {
  places = v.places;
  counter = omega (arith, v.counter, ap sum e, sum-append xs (n ∷ ys), sum-append xs ys);
}

Step-Inv : {v w : World} → Step v w → Inv v → Inv w
unfolding count_job finish_job raise_flag
Step-Inv (counts w job) v = record {
  places = λ j. omega (arith, v.places j, times-in j job w.submitted, times-in j job w.arriving);
  counter = omega (arith, v.counter);
}
Step-Inv (pushes w xs job ys e) v = pushes-Inv w xs job ys e v
Step-Inv (takes w job e) v = takes-Inv w job e v
Step-Inv (passes w xs job ys e b) v = (passes-Inv w xs job ys e v).0
Step-Inv (executes w xs job ys e) v = executes-Inv w xs job ys e v
Step-Inv (skips w xs job ys e b) v = (passes-Inv w xs job ys e v).1
Step-Inv (finishes w n e) v = record { places = v.places; counter = omega (arith, v.counter, e) }
Step-Inv (raises w) v = record { places = v.places; counter = v.counter }
Step-Inv (drops w b) v = drops-Inv w v
Step-Inv (settles w xs n ys e) v = settles-Inv w xs n ys e v
Step-Inv (ancestors_change w a) v = record { places = v.places; counter = v.counter }

Reach-Inv : {w : World} → Reach w → Inv w
Reach-Inv here = start-Inv
Reach-Inv (next r st) = Step-Inv st (Reach-Inv r)

-- When `IsComplete` answers true, as `Wait` has to see before it returns, no thread is between two
-- steps with a job of the group and none is queued: each submission of a job was executed, skipped
-- or dropped, and only one of these, once. Fewer than 2^64 jobs are in flight.
pub is_complete_lem :
    (w : World) (job : ℕ)
    → Reach w
    → in_flight w < u64_mod
    → is_complete w.group ≡ true
    → (in_flight w ≡ 0)
      × (times job w.submitted ≡ times job w.executed + times job w.skipped + times job w.dropped)
unfolding is_complete
is_complete_lem w job r small e =
    let v = Reach-Inv r in
    let zero_jobs : w.group.active_jobs ≡ 0 = ground arith in
    let rest : in_flight w ≡ 0 = omega (arith, v.counter) in
    (
      rest,
      omega (
        arith,
        v.places job,
        count_if-le-length (λ x. x == job) w.arriving,
        count_if-le-length (λ x. x == job) w.group.pending,
        count_if-le-length (λ x. x == job) w.taken,
        count_if-le-length (λ x. x == job) w.passed,
      ),
    )
