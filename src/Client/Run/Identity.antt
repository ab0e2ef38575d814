-- ===== src/Client/Run/Identity.antt =====
-- That the outcome of an asynchronous submission carries the identity of the request.
use snowflake_sql_api.Common.{
  Text, codes, Bool, true, Option, none, some, List, Result, ok, err, Bool-cases, ◌≡◌, refl, inl,
  inr, arith,
}
use snowflake_sql_api.Errors.{
  Exc, raised, raised_from, cancel_failed, info, is_snowflake, is_none, request_error,
}
use snowflake_sql_api.Bindings.{PyValue}
use snowflake_sql_api.Transport.{StatementResponse, statement_handle}
use snowflake_sql_api.Transport.Send.{Environment}
use snowflake_sql_api.Client.Batching.{Session}
use snowflake_sql_api.Client.Payload.{Context}
use snowflake_sql_api.Client.Run.{
  RequestId, QueryHandle, submission_id, marked, handle_of, submit_notified, submit_handle,
}

module _ (env : Environment) (session : Session env) (context : Context)
    (canonical : Text → Option Text) where
  -- A handle holds the identity, and so does an exception of the library.
  abbrev pub Labelled : Text → Result Exc (QueryHandle env session context canonical) → Type 0
  Labelled id (ok h) = h.request_id ≡ id
  Labelled id (err e) = is_snowflake (info e).kind ≡ true → (info e).request_id ≡ some id

  marked-Labelled :
      (id : Text) (e : Exc) → Labelled id (err (marked env session context canonical id e))
  marked-Labelled id (raised i) = ground arith
  marked-Labelled id (raised_from i c) = ground arith
  marked-Labelled id (cancel_failed i c) = ground arith

  handle_of-Labelled :
      (id : Text) (a : Result Exc StatementResponse × env.World)
      → Labelled id (handle_of env session context canonical id a).0
  handle_of-Labelled id (err e, w) = marked-Labelled id e
  handle_of-Labelled id (ok r, w) = elim (Bool-cases (is_none (statement_handle r))) [
    | inl missing ↦
        rw missing
          (marked-Labelled id (request_error (codes "async submit returned no statement handle")))
    | inr known ↦ rw known refl
  ]

  notified-Labelled :
      (id sql : Text) (params : List PyValue) (retry : Bool) (asked : Option Exc × env.World)
      → asked.0 ≡ none
      → Labelled id (submit_notified env session context canonical id sql params retry asked).0
  notified-Labelled id sql params retry (some e, w) h = cc
  notified-Labelled id sql params retry (none, w) h = handle_of-Labelled id _

  -- Once the identity is allocated and the hook has passed, a handle that is returned holds this
  -- identity, and an exception of the library that is raised carries it.
  pub submit_handle-Labelled :
      (sql : Text) (params : List PyValue) (request_id : RequestId) (retry : Bool) (w : env.World)
      {id : Text} {w' : env.World}
      → submission_id env session context canonical request_id retry w ≡ (ok id, w')
      → (session.notify sql params w').0 ≡ none
      → Labelled id (submit_handle env session context canonical sql params request_id retry w).0
  unfolding submit_handle
  submit_handle-Labelled sql params request_id retry w {id} {w'} h passed =
      rw h (notified-Labelled id sql params retry (session.notify sql params w') passed)
