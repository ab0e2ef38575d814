-- ===== src/Testing/Server/Querying.antt =====
-- `_collect` of client.py over `FakeSnowflake`: submitting, polling and fetching in one.
use snowflake_sql_api.Common.{
  ℕ, zero, suc, ◌+◌, ◌*◌, ◌<◌, Text, codes, true, false, Option, none, some, List, ◌∷◌, concat,
  Result, ok, ◌≡◌, refl, ap, ◌∙◌, inl, inr, text_eq,
}
use snowflake_sql_api.Common.Dict.{find, find-insert}
use snowflake_sql_api.Errors.{Value, str, Fields, get_or, Exc}
use snowflake_sql_api.Bindings.{PyValue}
use snowflake_sql_api.Transport.{StatementResponse, is_running, statement_handle}
use snowflake_sql_api.Transport.Send.{Environment}
use snowflake_sql_api.Transport.Calls.{submit, submit_params}
use snowflake_sql_api.Types.{Reading, ColumnMeta}
use snowflake_sql_api.Types.Columns.{coerce_rows}
use snowflake_sql_api.Client.Poll.{wait_of}
use snowflake_sql_api.Client.Batching.{Session}
use snowflake_sql_api.Client.Payload.{Context, build_payload}
use snowflake_sql_api.Client.Run.{run, finished, world_of}
use snowflake_sql_api.Client.Results.{
  columns_of, read_result, prepare_result, collect, query, gather_rows, and_then, and_run, Ran,
  Collected,
}
use snowflake_sql_api.Testing.Bodies.{running_body}
use snowflake_sql_api.Testing.Registry.{Registration}
use snowflake_sql_api.Testing.State.{State, FakeSnowflake, handle_name}
use snowflake_sql_api.Testing.Server.{Codec, result_body}
use snowflake_sql_api.Testing.Server.Served.{IsServed, answer_with, send-served}
use snowflake_sql_api.Testing.Server.Polling.{IsPaced, poll-served}
use snowflake_sql_api.Testing.Server.Fetching.{fetch_all_partitions-served}
use snowflake_sql_api.Testing.Server.Submitting.{
  submission, begun_as, fresh, handle-submission_running, handle-submission_ready,
}
use snowflake_sql_api.Testing.Server.Results.{
  IsBody, IsBody-found, result_body-IsBody, columns_from-IsBody, statement_handle-IsBody,
  handle_name-Lacks, build_payload-statement,
}

-- The session's hook accepts every statement, and it and the UUIDs leave the fake alone; `str` of a
-- handle that is a text is that text.
pub record IsQuiet (env : Environment) (session : Session env) (fake : env.World → FakeSnowflake)
    : Type 0 where
  pub accepts :
      (sql : Text) (params : List PyValue) (w : env.World) → (session.notify sql params w).0 ≡ none
  pub notify_same :
      (sql : Text) (params : List PyValue) (w : env.World)
      → fake (session.notify sql params w).1 ≡ fake w
  pub fresh_same : (w : env.World) → fake (session.fresh_id w).1 ≡ fake w
  pub handle_text : (s : Text) → session.waiting.handle_text (str s) ≡ s

module _ (codec : Codec) (env : Environment) (session : Session env)
    (fake : env.World → FakeSnowflake) (now : env.World → ℕ) (step : ℕ)
    (served : IsServed codec env fake) (paced : IsPaced env session.waiting fake now step)
    (quiet : IsQuiet env session fake) (context : Context) (canonical : Text → Option Text)
    (py : Reading) (listed : List Value → Text) where
  abbrev Answered : Type 0
  Answered = Result Exc StatementResponse × env.World

  run-submit :
      (sql : Text) (params : List PyValue) (w : env.World) (payload : Fields)
      → build_payload context sql params ≡ ok payload
      → (id : Text) × (w1 : env.World) × (fake w1 ≡ fake w)
        × (run env session context canonical sql params false w
            ≡ world_of env session context canonical (submit env payload id false false none w1))
  unfolding run
  run-submit sql params w payload built =
      let w1 = (session.notify sql params w).1 in
      (
        (session.fresh_id w1).0,
        (session.fresh_id w1).1,
        quiet.fresh_same w1 ∙ quiet.notify_same sql params w,
        rw (quiet.accepts sql params w) (rw built refl),
      )

  -- The response holds the result of the registration, and the fake holds it under its handle.
  Holds : Registration → Answered → Type 0
  Holds reg (answer, w) =
      (n : ℕ) × (body : Fields) × (attempts : Option ℕ) × (answer
        ≡ ok (answer_with attempts 200 body))
      × IsBody reg (handle_name n) body
      × (find (handle_name n) (fake w).states ≡ some (record { reg = reg; remaining_polls = 0 }))

  module _ (fuel : ℕ) (sql : Text) (params : List PyValue) (reg : Registration) (payload : Fields)
      (built : build_payload context sql params ≡ ok payload) (no_error : reg.error ≡ none)
      (c : List Value) (cs : List (List Value)) (split : reg.chunks ≡ c ∷ cs)
      (enough : reg.polls_before_ready < fuel)
      (early : step + reg.polls_before_ready * (4 * step) < wait_of session.limit) where
    Comes : Option Answered → Type 0
    Comes o = (a : Answered) × (o ≡ some a) × Holds reg a

    submit-Comes :
        (id : Text) (w : env.World) (polls : ℕ)
        → reg.polls_before_ready ≡ polls
        → find sql (fake w).exact ≡ some reg
        → Comes (
            finished env session context canonical fuel session.limit true true
              (world_of env session context canonical (submit env payload id false false none w)))
    unfolding submit Comes Holds submit_params is_running statement_handle running_body get_or
        text_eq
    submit-Comes id w zero polls known =
        let name = handle_name ((fake w).counter + 1) in
        let f = begun_as (submission id payload) reg (fake w) in
        let held = find-insert name (fresh reg) (fake w).states in
        let (body, good) = IsBody-found reg name c cs split in
        let (s, gives, _, moved) =
          send-served codec env fake served (submission id payload) true w 200 body (inl refl) (
            handle-submission_ready codec id sql payload (fake w) reg
              (build_payload-statement context sql params built) known no_error polls
              (result_body-IsBody codec f name (fresh reg) body held good)) in
        (
          (ok (answer_with (some 1) 200 body), s.world),
          rw gives refl,
          (
            (fake w).counter + 1,
            body,
            some 1,
            refl,
            good,
            ap (λ g. find name g.states) moved
                ∙ held
                ∙ ap (λ m. some (record { reg = reg; remaining_polls = m })) polls,
          ),
        )
    submit-Comes id w (suc n) polls known =
        let name = handle_name ((fake w).counter + 1) in
        let f = begun_as (submission id payload) reg (fake w) in
        let held = find-insert name (fresh reg) (fake w).states in
        let (body, good) = IsBody-found reg name c cs split in
        let (s, gives, _, moved) =
          send-served codec env fake served (submission id payload) true w 202
            (running_body name (codes "333334")) (inr refl)
            (handle-submission_running codec id sql payload (fake w) reg
              (build_payload-statement context sql params built) known no_error n polls) in
        let (w', ends, kept) =
          poll-served codec env session.waiting fake now step served paced name
            (handle_name-Lacks ((fake w).counter + 1)) body (str name) (quiet.handle_text name) true
            session.limit reg.polls_before_ready fuel s.world (fresh reg)
            (ap (λ g. find name g.states) moved ∙ held) refl
            (ap (result_body codec name) moved
              ∙ result_body-IsBody codec f name (fresh reg) body held good)
            enough early in
        (
          (ok (answer_with none 200 body), w'),
          rw gives ends,
          ((fake w).counter + 1, body, none, refl, good, kept),
        )

  module _ (reg : Registration) (columns : List ColumnMeta)
      (typed : columns_of py listed reg.row_type ≡ ok columns) where
    Fetched :
        Ran env session context canonical py listed
          (Collected env session context canonical py listed)
        → Type 0
    Fetched o = (w : env.World) × (o ≡ some (ok (columns, concat reg.chunks), w))

    gathered :
        (answer : Answered)
        → Holds reg answer
        → Fetched (
            and_run env session context canonical py listed
              (gather_rows env session context canonical py listed)
              (and_then env session context canonical py listed
                (read_result env session context canonical py listed)
                (some answer)))
    unfolding Holds read_result Fetched
    gathered (answer, w) (n, body, attempts, is, good, held) =
        let state : State = record { reg = reg; remaining_polls = 0 } in
        let given = result_body-IsBody codec (fake w) (handle_name n) state body held good in
        let (w', all, same) =
          fetch_all_partitions-served codec env fake served (handle_name n) (handle_name-Lacks n)
            state w body held given in
        rw is (
          rw (columns_from-IsBody py listed reg (handle_name n) body good) (
            rw typed (
              rw (statement_handle-IsBody reg n body attempts good)
                (rw (quiet.handle_text (handle_name n)) (w', rw all refl)))))

  -- A query for a registered statement, which is not registered as an error, gives all rows of
  -- its registration, in order and read by its columns: it is submitted, polled, and all of its
  -- partitions are fetched. The fuel is for a look more than the polls that the registration asks
  -- for, and the limit of the session is not reached before the last of them.
  pub query-served :
      (fuel : ℕ) (sql : Text) (params : List PyValue) (w : env.World) (reg : Registration)
      {payload : Fields} {columns : List ColumnMeta} {c : List Value} {cs : List (List Value)}
      → build_payload context sql params ≡ ok payload
      → find sql (fake w).exact ≡ some reg
      → reg.error ≡ none
      → reg.chunks ≡ c ∷ cs
      → columns_of py listed reg.row_type ≡ ok columns
      → reg.polls_before_ready < fuel
      → step + reg.polls_before_ready * (4 * step) < wait_of session.limit
      → (w' : env.World) × (query env session context canonical py listed fuel sql params w
          ≡ some (coerce_rows py columns (concat reg.chunks), w'))
  unfolding query collect prepare_result Comes Fetched
  query-served fuel sql params w reg {payload} {columns} {c} {cs} built known no_error split typed
        enough early =
      let (id, w1, same, runs) = run-submit sql params w payload built in
      let (answer, comes, holds) =
        submit-Comes fuel sql params reg payload built no_error c cs split enough early id w1
          reg.polls_before_ready refl (ap (λ f. find sql f.exact) same ∙ known) in
      let (w', all) = gathered reg columns typed answer holds in
      (w', rw runs (rw comes (rw all refl)))
