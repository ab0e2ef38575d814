-- ===== src/Client/Batching/Ledger.antt =====
-- That `insert_batches` ends, and that its books balance when it does.
use snowflake_sql_api.Common.{
  ℕ, zero, suc, ◌+◌, ◌≤◌, ◌<◌, Text, true, false, Option, none, some, List, [], ◌∷◌, ◌++◌, Result,
  ok, err, Bool-cases, ◌≡◌, ◌≢◌, refl, sym, ap, ◌∙◌, inl, inr, arith, length, length-append,
}
use snowflake_sql_api.Errors.{Exc, is_none, end}
use snowflake_sql_api.Bindings.{PyValue}
use snowflake_sql_api.Batches.Encode.{Bytes}
use snowflake_sql_api.Transport.{StatementResponse, is_running, statement_handle}
use snowflake_sql_api.Transport.Send.{Environment, Sending}
use snowflake_sql_api.Transport.Calls.{submit}
use snowflake_sql_api.Client.Poll.{wait_of, poll}
use snowflake_sql_api.Client.Poll.Ends.{Finished, IsTimed, poll_ends}
use snowflake_sql_api.Client.Batching.{
  Session, Tried, Inserted, settle, submitted, after_poll, run_batch, settled, notified, planned,
  insert_loop,
}
use snowflake_sql_api.Batches.Progress.{BatchSummary, input_rows}
use snowflake_sql_api.Batches.Planner
use snowflake_sql_api.Batches.Planner.{
  Next, Planner, PreparedBatch, Fault, stopped, escaped, stop, make_planner,
}
use snowflake_sql_api.Batches.Planner.Step.{next_batch, confirm}
use snowflake_sql_api.Batches.Planner.Measured.{IsPlanned}
use snowflake_sql_api.Batches.Planner.Budget.{next_batch-Sendable, next_batch_stops}
use snowflake_sql_api.Batches.Planner.Stops.{StopsAt, next_batch-StopsAt}
use snowflake_sql_api.Batches.Planner.Order.{ahead}
use snowflake_sql_api.Batches.Planner.Conservation.{IsSound, rows_of}
use snowflake_sql_api.Batches.Planner.Delivery.{next_batch-Delivered, IsReady, make_planner-IsReady}
use snowflake_sql_api.Batches.Execution
use snowflake_sql_api.Batches.Execution.{Execution, start, received}

-- The books of a planner: every row of the source is confirmed or ahead, and the summaries add up
-- to the confirmed rows.
pub record IsBalanced (total : ℕ) (p : Planner) : Type 0 where
  pub planned : IsPlanned p
  pub sound : IsSound p
  pub positive : 0 < p.max_rows
  pub summed : input_rows p.completed ≡ p.confirmed_rows
  pub all_rows : p.confirmed_rows + length (ahead p) ≡ total

-- A result accounts for every row; a `BatchWriteError` says how many rows its summaries confirm,
-- which is where the next row is to be read; no other exception is raised.
abbrev pub Accounted : ℕ → Result Fault (List BatchSummary) → Type 0
Accounted total (ok bs) = input_rows bs ≡ total
Accounted total (err (stopped e)) =
    (input_rows e.completed ≡ e.next_row_index) × (e.next_row_index ≤ total)
Accounted total (err (escaped e)) = ⊥

input_rows-snoc :
    (bs : List BatchSummary) (b : BatchSummary)
    → input_rows (bs ++ b ∷ []) ≡ input_rows bs + b.row_count
input_rows-snoc [] b = omega arith
input_rows-snoc (a ∷ bs) b = omega (arith, input_rows-snoc bs b)

length-rows_of : (vs : List (List PyValue)) → length (rows_of vs) ≡ length vs
length-rows_of [] = refl
length-rows_of (v ∷ vs) = omega (arith, length-rows_of vs)

confirm-IsBalanced :
    (total : ℕ) (p : Planner) (batch : PreparedBatch) (n : ℕ)
    → IsPlanned p
    → IsSound p
    → 0 < p.max_rows
    → input_rows p.completed ≡ p.confirmed_rows
    → p.confirmed_rows + batch.row_count + length (ahead p) ≡ total
    → IsBalanced total (confirm p batch n)
unfolding confirm
confirm-IsBalanced total p batch n planned sound positive summed all = record {
  planned = record { plain = planned.plain; overhead = planned.overhead };
  sound = record { drained = sound.drained; kept = sound.kept };
  positive = positive;
  summed = input_rows-snoc p.completed _ ∙ ap (λ k. k + batch.row_count) summed;
  all_rows = all;
}

-- What the planner promises of its next call.
abbrev pub Planned : ℕ → Planner → Result Fault (Planner × Option PreparedBatch) → Type 0
Planned total p (err f) = Accounted total (err f)
Planned total p (ok (q, none)) = input_rows q.completed ≡ total
Planned total p (ok (q, some batch)) =
    (IsPlanned q × IsSound q)
    × (0 < q.max_rows)
    × (input_rows q.completed ≡ q.confirmed_rows)
    × (q.confirmed_rows + batch.row_count + length (ahead q) ≡ total)
    × (length (ahead q) < length (ahead p))

stopped-Accounted :
    (total : ℕ) (p : Planner) (f : Fault)
    → IsBalanced total p
    → ((e : Exc) → f ≢ escaped e)
    → StopsAt p f
    → Accounted total (err f)
stopped-Accounted total p (escaped e) i never h = never e refl
stopped-Accounted total p (stopped e) i never (completed, next, _, _) =
    (ap input_rows completed ∙ i.summed ∙ sym next, omega (arith, next, i.all_rows))

next_batch-Planned : (total : ℕ) (p : Planner) → IsBalanced total p → Planned total p (next_batch p)
next_batch-Planned total p i = go (next_batch p) refl
  where
    go : (r : Result Fault (Planner × Option PreparedBatch)) → next_batch p ≡ r → Planned total p r
    go (err f) h =
        stopped-Accounted total p f i (next_batch_stops p i.planned h).1
          (next_batch-StopsAt p f i.planned h)
    go (ok (q, none)) h =
        let (none_left, sound) = next_batch-Delivered p i.sound i.positive h in
        let (planned', s) = next_batch-Sendable p i.planned h in
        ap input_rows s.completed ∙ i.summed ∙ omega (arith, i.all_rows, ap length none_left)
    go (ok (q, some batch)) h =
        let (vs, _, count, _, _, rows, sound) = next_batch-Delivered p i.sound i.positive h in
        let (_, one, _, planned', s) = next_batch-Sendable p i.planned h in
        let lengths : length (ahead p) ≡ length vs + length (ahead q) =
          ap length rows
          ∙ length-append (rows_of vs) (ahead q)
          ∙ ap (λ n. n + length (ahead q)) (length-rows_of vs) in
        (
          (planned', sound),
          omega (arith, i.positive, s.max_rows),
          ap input_rows s.completed ∙ i.summed ∙ sym s.confirmed_rows,
          omega (arith, s.confirmed_rows, i.all_rows, lengths, count),
          omega (arith, lengths, count, one),
        )

module _ (env : Environment) (session : Session env) (now : env.World → ℕ)
    (timed : IsTimed env session.waiting now) where
  -- The polling of every statement has fuel for its wait.
  abbrev pub poll_fuel : ℕ
  poll_fuel = suc (wait_of session.limit)

  -- The `try` block ends, and its execution record is still of the same planner.
  abbrev Tries : Planner → Option (Tried env session) → Type 0
  Tries p o = (t : Tried env session) × (o ≡ some t) × (t.execution.planner ≡ p)

  settle-Tries :
      (x : Execution) (r : StatementResponse) (w : env.World)
      → Tries x.planner (settle env session poll_fuel x r w)
  unfolding settle
  settle-Tries x r w = elim (Bool-cases (is_running r)) [
    | inr done ↦ rw done (_, refl, refl)
    | inl running ↦ rw running (elim (Bool-cases (is_none (statement_handle r))) [
      | inl missing ↦ rw missing (_, refl, refl)
      | inr known ↦
          rw known
            (go (poll_ends env session.waiting now timed (statement_handle r) session.limit true w))
    ])
  ]
    where
      go :
          (p : Result Exc StatementResponse × env.World) × (poll env session.waiting poll_fuel
                (statement_handle r)
                session.limit
                true
                w
              ≡ some p)
            × Finished env session.waiting p
          → Tries x.planner (
              after_poll env session x
                (poll env session.waiting poll_fuel (statement_handle r) session.limit true w))
      go ((err e, w'), h, _) = rw h (_, refl, refl)
      go ((ok r', w'), h, _) = rw h (_, refl, refl)

  run_batch-Tries :
      (x : Execution) (batch : PreparedBatch) (w : env.World)
      → Tries x.planner (run_batch env session poll_fuel x batch w)
  unfolding run_batch received
  run_batch-Tries x batch w =
      go (submit env end x.failed.request_id false false (some batch.content) w)
    where
      go :
          (answer : Result Exc StatementResponse × Sending env)
          → Tries x.planner (submitted env session poll_fuel x answer)
      go (err e, s) = (_, refl, refl)
      go (ok r, s) =
          settle-Tries (received (statement_handle r) r.submission_attempts (is_running r) x) r
            s.world

  -- The loop ends with a result that accounts for the rows.
  abbrev Settles : ℕ → Option (Inserted env session) → Type 0
  Settles total o = (out : Inserted env session) × (o ≡ some out) × Accounted total out.0

  settled-Settles :
      (total : ℕ) (loop : Planner → env.World → Option (Inserted env session)) (p : Planner)
      (batch : PreparedBatch) (o : Option (Tried env session))
      → input_rows p.completed ≡ p.confirmed_rows
      → p.confirmed_rows ≤ total
      → ((n : ℕ) (w : env.World) → Settles total (loop (confirm p batch n) w))
      → Tries p o
      → Settles total (settled env session loop p batch o)
  unfolding Execution.error Planner.error
  settled-Settles total loop p batch o summed within rec (t, h, same) = rw h (go (t.result))
    where
      go :
          (r : Result Exc ℕ)
          → Settles total (settled env session loop p batch (some (record t { result = r })))
      go (ok n) = rec n t.world
      go (err e) = (
        _,
        refl,
        (
          ap (λ q. input_rows q.completed) same ∙ summed ∙ sym (ap (λ q. q.confirmed_rows) same),
          omega (arith, within, ap (λ q. q.confirmed_rows) same),
        ),
      )

  notified-Settles :
      (total : ℕ) (loop : Planner → env.World → Option (Inserted env session)) (p : Planner)
      (batch : PreparedBatch) (asked : Option Exc × env.World)
      → input_rows p.completed ≡ p.confirmed_rows
      → p.confirmed_rows ≤ total
      → ((n : ℕ) (w : env.World) → Settles total (loop (confirm p batch n) w))
      → Settles total (notified env session poll_fuel loop p batch asked)
  unfolding Planner.error start
  notified-Settles total loop p batch (some e, w) summed within rec = (_, refl, (summed, within))
  notified-Settles total loop p batch (none, w) summed within rec =
      let (id, w1) = session.fresh_id w in
      settled-Settles total loop p batch
        (run_batch env session poll_fuel (start p batch id) batch w1) summed within rec
        (run_batch-Tries (start p batch id) batch w1)

  -- `insert_batches` ends, whatever the network answers: with the fuel of a round for each row that
  -- is ahead, of one more, and of the wait for every polling, the loop gives a result. It confirms
  -- every row, or it is a `BatchWriteError` whose completed batches add up to its next row.
  pub insert_loop_accounts :
      (fuel total : ℕ) (p : Planner) (w : env.World)
      → IsBalanced total p
      → length (ahead p) < fuel
      → (out : Inserted env session) × (insert_loop env session poll_fuel fuel p w ≡ some out)
        × Accounted total out.0
  unfolding insert_loop
  insert_loop_accounts zero total p w i h = absurd (omega (arith, h))
  insert_loop_accounts (suc fuel) total p w i h =
      go (next_batch p) (next_batch-Planned total p i)
        (λ q w' i' h'. insert_loop_accounts fuel total q w' i' h')
    where
      go :
          (r : Result Fault (Planner × Option PreparedBatch))
          → Planned total p r
          → ((q : Planner) (w' : env.World)
              → IsBalanced total q
              → length (ahead q) < fuel
              → Settles total (insert_loop env session poll_fuel fuel q w'))
          → Settles total
              (planned env session poll_fuel (insert_loop env session poll_fuel fuel) r w)
      go (err f) good rec = (_, refl, good)
      go (ok (q, none)) good rec = (_, refl, good)
      go (ok (q, some batch)) ((planned', sound), positive, summed, all, less) rec =
          notified-Settles total (insert_loop env session poll_fuel fuel) q batch
            (session.notify batch.sql batch.params w) summed (omega (arith, all))
            (λ n w'.
              rec (confirm q batch n) w'
                (confirm-IsBalanced total q batch n planned' sound positive summed all)
                (unfold confirm in omega (arith, less, h)))

  ready-IsBalanced :
      (width : ℕ) (rows : List Next) (p : Planner)
      → IsReady width rows p
      → IsBalanced (length rows) p
  ready-IsBalanced width rows p (planned', sound, positive, _, all, _, none_yet, no_batches) =
      record {
        planned = planned';
        sound = sound;
        positive = positive;
        summed = ap input_rows no_batches ∙ sym none_yet;
        all_rows = omega (arith, none_yet, ap length all);
      }

  -- Whatever the network answers, `insert_batches` on a source that the planner accepts ends, given
  -- a clock that no call turns back, pauses of one tick at least, and fuel for a round per row, one
  -- more, and the wait of every polling. It confirms as many rows as the source has, or raises a
  -- `BatchWriteError` whose completed batches add up to its next row index, at most that number.
  pub insert_batches_accounts :
      (table : Text) (columns : List Text) (iter_error : Option Exc) (rows : List Next)
      (max_rows max_bytes : PyValue) (build_context : Result Exc Bytes) {p : Planner}
      (w : env.World)
      → make_planner table columns iter_error rows max_rows max_bytes build_context ≡ ok p
      → (out : Inserted env session) × (insert_loop env session poll_fuel (suc (length rows)) p w
          ≡ some out)
        × Accounted (length rows) out.0
  insert_batches_accounts table columns it rows mr mb bc {p} w h =
      let ready = make_planner-IsReady table columns it rows mr mb bc h in
      let balanced = ready-IsBalanced (length columns) rows p ready in
      insert_loop_accounts (suc (length rows)) (length rows) p w balanced
        (omega (arith, balanced.all_rows))
