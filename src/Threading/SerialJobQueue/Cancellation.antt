-- ===== src/Threading/SerialJobQueue/Cancellation.antt =====
-- What becomes of a job that is cancelled while it runs, and of one that waits.
use tge_core.Prelude.{
  ℕ, ◌==◌, ◌≡◌, refl, ap, true, false, not, List, [], ◌∷◌, ◌++◌, none, some, keep_if, arith,
  Bool-cases, inl, inr, ==_refl,
}
use tge_core.Threading.SerialJobQueue.{
  Queue, Entry, cancel, finish_entry, take_entry, submit, insert_id, is_cancelled, has_pending,
}

is_cancelled-insert_id :
    (ids : List ℕ) (job_id : ℕ) → is_cancelled (insert_id ids job_id) job_id ≡ true
unfolding insert_id
is_cancelled-insert_id ids job_id = elim (Bool-cases (is_cancelled ids job_id)) [
  | inl e ↦ rw e e
  | inr e ↦ rw e (any-last ids job_id)
]
  where
    any-last : (ids : List ℕ) (job_id : ℕ) → is_cancelled (ids ++ job_id ∷ []) job_id ≡ true
    any-last [] job_id = rw (==_refl job_id) refl
    any-last (x ∷ xs) job_id = elim (Bool-cases (x == job_id)) [
      | inl e ↦ rw e refl
      | inr e ↦ rw e (any-last xs job_id)
    ]

keep_if-none :
    (es : List Entry) (job_id : ℕ)
    → has_pending es job_id ≡ false
    → keep_if (λ (e : Entry). not (e.job_id == job_id)) es ≡ es
keep_if-none [] job_id h = refl
keep_if-none (e ∷ es) job_id h = elim (Bool-cases (e.job_id == job_id)) [
  | inl same ↦ absurd (ground arith)
  | inr other ↦ rw other (ap (λ l. e ∷ l) (keep_if-none es job_id (ground arith)))
]

-- The result of a job that is cancelled while it runs is delivered all the same, and a job that is
-- submitted under its id afterwards is dropped without being run: the mark that `Cancel` leaves is
-- looked at only where a job is taken. No other job waits, and the queue is not stopping.
pub cancel_in_flight :
    (run : ℕ → ℕ) (q : Queue) (e later : Entry)
    → q.in_flight ≡ some e
    → q.pending ≡ []
    → q.should_stop ≡ false
    → later.job_id ≡ e.job_id
    → ((finish_entry run (cancel q e.job_id)).completed ≡ q.completed ++ run e.work ∷ [])
      × ((r : Queue) × (take_entry (submit (finish_entry run (cancel q e.job_id)) later) ≡ some r)
          × (r.in_flight ≡ none)
          × (r.pending ≡ [])
          × (r.completed ≡ q.completed ++ run e.work ∷ []))
unfolding cancel finish_entry take_entry submit
cancel_in_flight run q e later flying idle going same =
    rw (flying, idle, going, same, is_cancelled-insert_id q.cancelled e.job_id)
      (refl, (_, refl, refl, refl, refl))
