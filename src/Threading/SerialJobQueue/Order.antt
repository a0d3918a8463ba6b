-- ===== src/Threading/SerialJobQueue/Order.antt =====
-- The order in which results come out, over every sequence of the callers' and the worker's steps.
use tge_core.Prelude.{
  ℕ, ◌≡◌, refl, sym, ap, subst, ◌∙◌, List, [], ◌∷◌, ◌++◌, map, Option, none, some, Sublistᴰ,
  sublist_refl, sublist_trans, sublist_nil, sublist-append, keep_if_sublist, sublist-map,
  Bool-cases, List-cases, Option-cases, inl, inr, arith,
}
use mathlib.Core.List.Sublistᴰ.{slnil, cons}
use mathlib.Core.Option.{some-injective}
use tge_core.Threading.SerialJobQueue.{
  Queue, Entry, new_queue, start, request_stop, end_stop, clear, submit, poll, cancel, take_entry,
  finish_entry, erase_id, is_cancelled,
}

-- The entry that is in flight, and the result that a poll gave, as lists.
abbrev pub listed {ℓ} : {A : Type ℓ} → Option A → List A
listed none = []
listed (some a) = a ∷ []

-- `Runs q submitted polled`: steps from the new queue lead to `q`, after these entries have been
-- submitted and these results polled. The worker takes an entry only when it runs none.
pub data Runs (run : ℕ → ℕ) : Queue → List Entry → List ℕ → Type 0 where
  made : Runs run new_queue [] []
  starts : {q : Queue} {es : List Entry} {rs : List ℕ} → Runs run q es rs → Runs run (start q) es rs
  asks_stop :
      {q : Queue} {es : List Entry} {rs : List ℕ}
      → Runs run q es rs
      → Runs run (request_stop q) es rs
  stops :
      {q : Queue} {es : List Entry} {rs : List ℕ} → Runs run q es rs → Runs run (end_stop q) es rs
  clears : {q : Queue} {es : List Entry} {rs : List ℕ} → Runs run q es rs → Runs run (clear q) es rs
  submits :
      {q : Queue} {es : List Entry} {rs : List ℕ} (e : Entry)
      → Runs run q es rs
      → Runs run (submit q e) (es ++ e ∷ []) rs
  polls :
      {q : Queue} {es : List Entry} {rs : List ℕ}
      → Runs run q es rs
      → Runs run (poll q).0 es (rs ++ listed (poll q).1)
  cancels :
      {q : Queue} {es : List Entry} {rs : List ℕ} (job_id : ℕ)
      → Runs run q es rs
      → Runs run (cancel q job_id) es rs
  takes :
      {q r : Queue} {es : List Entry} {rs : List ℕ}
      → Runs run q es rs
      → q.in_flight ≡ none
      → take_entry q ≡ some r
      → Runs run r es rs
  finishes :
      {q : Queue} {es : List Entry} {rs : List ℕ}
      → Runs run q es rs
      → Runs run (finish_entry run q) es rs

-- The results of these entries, and those that a queue still has in store, in order.
abbrev pub results : (ℕ → ℕ) → List Entry → List ℕ
results run es = map (λ (e : Entry). run e.work) es

pub in_store : (ℕ → ℕ) → Queue → List ℕ
in_store run q = q.completed ++ (results run (listed q.in_flight) ++ results run q.pending)

module _ (run : ℕ → ℕ) where
  pub append_assoc : (xs ys zs : List ℕ) → (xs ++ ys) ++ zs ≡ xs ++ (ys ++ zs)
  append_assoc [] ys zs = refl
  append_assoc (x ∷ xs) ys zs = ap (λ l. x ∷ l) (append_assoc xs ys zs)

  results-append : (es fs : List Entry) → results run (es ++ fs) ≡ results run es ++ results run fs
  results-append [] fs = refl
  results-append (e ∷ es) fs = ap (λ l. run e.work ∷ l) (results-append es fs)

  start-in_store : (q : Queue) → in_store run (start q) ≡ in_store run q
  unfolding in_store start
  start-in_store q = ground arith

  request_stop-in_store : (q : Queue) → in_store run (request_stop q) ≡ in_store run q
  unfolding in_store request_stop
  request_stop-in_store q = ground arith

  end_stop-in_store : (q : Queue) → in_store run (end_stop q) ≡ in_store run q
  unfolding in_store end_stop
  end_stop-in_store q = ground arith

  submit-in_store :
      (q : Queue) (e : Entry) → in_store run (submit q e) ≡ in_store run q ++ run e.work ∷ []
  unfolding in_store submit
  submit-in_store q e = rw (results-append q.pending (e ∷ [])) (
      sym (
        append_assoc q.completed (results run (listed q.in_flight) ++ results run q.pending)
          (run e.work ∷ [])
        ∙ ap (λ l. q.completed ++ l)
            (append_assoc (results run (listed q.in_flight)) (results run q.pending)
              (run e.work ∷ []))))

  poll-in_store : (q : Queue) → listed (poll q).1 ++ in_store run (poll q).0 ≡ in_store run q
  unfolding in_store poll
  poll-in_store q = elim (List-cases q.completed) [ inl e ↦ rw e refl | inr (x, xs, e) ↦ rw e refl ]

  cancel-in_store :
      (q : Queue) (job_id : ℕ) → Sublistᴰ (in_store run (cancel q job_id)) (in_store run q)
  unfolding in_store cancel
  cancel-in_store q job_id = sublist-append (sublist_refl q.completed) (
      sublist-append (sublist_refl (results run (listed q.in_flight)))
        (sublist-map (λ (e : Entry). run e.work) (keep_if_sublist _ q.pending)))

  clear-in_store : (q : Queue) → Sublistᴰ (in_store run (clear q)) (in_store run q)
  unfolding in_store clear
  clear-in_store q = sublist-append (sublist_nil q.completed) (
      sublist-append (sublist_refl (results run (listed q.in_flight)))
        (sublist_nil (results run q.pending)))

  finish_entry-in_store : (q : Queue) → in_store run (finish_entry run q) ≡ in_store run q
  unfolding in_store finish_entry
  finish_entry-in_store q = elim (Option-cases q.in_flight) [
    | inl e ↦ rw e refl
    | inr (e, flying) ↦
        rw flying (append_assoc q.completed (run e.work ∷ []) (results run q.pending))
  ]

  take_entry-to :
      (q r x : Queue)
      → take_entry q ≡ some x
      → take_entry q ≡ some r
      → Sublistᴰ (in_store run x) (in_store run q)
      → Sublistᴰ (in_store run r) (in_store run q)
  take_entry-to q r x e h s =
      subst (λ y. Sublistᴰ (in_store run y) (in_store run q)) (some-injective x r (sym e ∙ h)) s

  take_entry-in_store :
      (q r : Queue)
      → q.in_flight ≡ none
      → take_entry q ≡ some r
      → Sublistᴰ (in_store run r) (in_store run q)
  unfolding in_store take_entry
  take_entry-in_store q r idle h = elim (Bool-cases q.should_stop) [
    | inl stop ↦ absurd (ground arith)
    | inr go ↦ elim (List-cases q.pending) [
      | inl e ↦ take_entry-to q r q (rw (e, go) refl) h (sublist_refl (in_store run q))
      | inr (x, xs, e) ↦ elim (Bool-cases (is_cancelled q.cancelled x.job_id)) [
        | inl drop ↦
            take_entry-to q r (record q { pending = xs; cancelled = erase_id q.cancelled x.job_id })
              (rw (e, go, drop) refl) h
              (rw e (
                sublist-append (sublist_refl q.completed) (
                  sublist-append (sublist_refl (results run (listed q.in_flight)))
                    (cons (sublist_refl (results run xs))))))
        | inr keep ↦
            take_entry-to q r (record q { pending = xs; in_flight = some x })
              (rw (e, go, keep) refl) h (rw (e, idle) (sublist_refl _))
      ]
    ]
  ]

  -- The results that have been polled, and those still in store after them, are those of the
  -- submitted entries in the order of the submission, each at most once: a step drops results, and
  -- never makes one up, repeats one or lets one overtake another.
  pub in_order :
      {q : Queue} {es : List Entry} {rs : List ℕ}
      → Runs run q es rs
      → Sublistᴰ (rs ++ in_store run q) (results run es)
  unfolding in_store new_queue
  in_order made = slnil
  in_order (starts {q = q} r) = rw (start-in_store q) (in_order r)
  in_order (asks_stop {q = q} r) = rw (request_stop-in_store q) (in_order r)
  in_order (stops {q = q} r) = rw (end_stop-in_store q) (in_order r)
  in_order (clears {q = q} {rs = rs} r) =
      sublist_trans (sublist-append (sublist_refl rs) (clear-in_store q)) (in_order r)
  in_order (submits {q = q} {es = es} {rs = rs} e r) =
      rw
        (
          submit-in_store q e,
          sym (append_assoc rs (in_store run q) (run e.work ∷ [])),
          results-append es (e ∷ []),
        )
        (sublist-append (in_order r) (sublist_refl (run e.work ∷ [])))
  in_order (polls {q = q} {rs = rs} r) =
      rw (append_assoc rs (listed (poll q).1) (in_store run (poll q).0), poll-in_store q)
        (in_order r)
  in_order (cancels {q = q} {rs = rs} job_id r) =
      sublist_trans (sublist-append (sublist_refl rs) (cancel-in_store q job_id)) (in_order r)
  in_order (takes {q = q} {r = s} {rs = rs} r idle h) =
      sublist_trans (sublist-append (sublist_refl rs) (take_entry-in_store q s idle h)) (in_order r)
  in_order (finishes {q = q} r) = rw (finish_entry-in_store q) (in_order r)
