-- ===== src/Api/Outcomes.antt =====
-- What the endpoints answer, and what they leave behind.
use sansbox_sql.Base.{
  String, ℕ, true, false, none, some, ◌==◌, string_eq, ◌≡◌, ◌⊎◌, inl, inr, refl, ap, ◌∙◌,
  Bool-cases, Option-cases, if◌then◌else◌,
}
use sansbox_sql.Errors.{Exc, Result, ok, err, key_error, permission_error}
use sansbox_sql.Exec.{except_base, ◌>>=◌}
use sansbox_sql.Session.{Session, nuked, is_nuked}
use sansbox_sql.Store.{get, with_status}
use sansbox_sql.Service.{
  World, Callables, NukeResult, ResetTtl, extended, reset_ttl, nuke, nuke_by_ticket, now_nuked,
  already_nuked,
}
use sansbox_sql.Service.Require.{require_err}
use sansbox_sql.Service.Resets.{resettable, reset_row, reset_ttl-granted, reset_ttl-refused}
use sansbox_sql.Service.Nukes.{Calm, nuke_lem, nuke_by_ticket-hidden, nuke_by_ticket-twice}
use sansbox_sql.Api.{
  Response, success, http_exception, on_reset_error, reset_body, on_missing, delete_body,
  DeleteResponse, TicketClosedResponse, ticket_body,
}

module _ {E : Type 0} (c : Callables E) where
  reset_returned :
      (sid : String) (w : World E) (a : ResetTtl)
      → (reset_ttl c sid w).0 ≡ ok a
      → reset_body c sid w ≡ (ok (success 200 a), (reset_ttl c sid w).1)
  unfolding reset_body except_base ◌>>=◌
  reset_returned sid w a h = rw h refl

  reset_raised :
      (sid : String) (w : World E) (e : Exc)
      → reset_ttl c sid w ≡ (err e, w)
      → reset_body c sid w ≡ on_reset_error c e w
  unfolding reset_body except_base ◌>>=◌
  reset_raised sid w e h = rw h refl

  reset_unknown :
      (sid : String) (w : World E)
      → get sid w.table ≡ none
      → reset_ttl c sid w ≡ (err (key_error sid), w)
  unfolding reset_ttl ◌>>=◌
  reset_unknown sid w h = rw (require_err sid w h) refl

  pub Reset : String → World E → ℕ → Session → Type 0
  Reset sid w now r =
      (get sid w.table ≡ some r)
      × (resettable now r ≡ true)
      × ((reset_body c sid w).0
          ≡ ok (
              success 200 (record {
                session_id = sid;
                expires_at = extended c.settings r;
                max_extended_until = r.max_extended_until;
                reset_used = true;
              })))
      × (get sid (reset_body c sid w).1.table ≡ some (reset_row (extended c.settings r) r))

  pub Conflict : String → World E → ℕ → Session → Type 0
  Conflict sid w now r =
      (get sid w.table ≡ some r)
      × (resettable now r ≡ false)
      × (m : String) × (reset_body c sid w ≡ (ok (http_exception 409 m), w))

  -- Where reading the clock changes nothing, the code of the reset endpoint always answers: with 404
  -- for an unknown session; with 200 and the new deadline, which is then the row's, for a session
  -- that is ready, was not extended and has not reached its maximum; with 409 for any other. With
  -- 404 and with 409 nothing has changed.
  pub reset_body-Answers :
      (sid : String) (w : World E) (now : ℕ)
      → c.time w ≡ (ok now, w)
      → ((get sid w.table ≡ none)
          × (reset_body c sid w ≡ (ok (http_exception 404 "session not found"), w)))
        ⊎ ((r : Session) × (Reset sid w now r ⊎ Conflict sid w now r))
  unfolding Reset Conflict on_reset_error
  reset_body-Answers sid w now clock = elim (Option-cases (get sid w.table)) [
    | inl e ↦ inl (e, reset_raised sid w (key_error sid) (reset_unknown sid w e))
    | inr (r, here) ↦ elim (Bool-cases (resettable now r)) [
      | inl y ↦
          let (result, row) = reset_ttl-granted c sid w r now here clock y in
          let done = reset_returned sid w _ result in
          inr (
            r,
            inl (
              here,
              y,
              ap (λ p. p.0) done,
              ap (λ (p : Result (Response ResetTtl) × World E). get sid p.1.table) done ∙ row,
            ),
          )
      | inr n ↦
          let (m, h) = reset_ttl-refused c sid w r now here clock n in
          inr (r, inr (here, n, m, reset_raised sid w (permission_error m) h))
    ]
  ]

  ticket_returned :
      (ticket sid : String) (w : World E) (a : NukeResult)
      → (nuke_by_ticket c ticket sid w).0 ≡ ok a
      → ticket_body c ticket sid w ≡ (
        ok (success 200 (record { ticket = ticket; session_id = sid; status = a })),
        (nuke_by_ticket c ticket sid w).1,
      )
  unfolding ticket_body except_base ◌>>=◌
  ticket_returned ticket sid w a h = rw h refl

  ticket_raised :
      (ticket sid : String) (w : World E)
      → nuke_by_ticket c ticket sid w ≡ (err (key_error sid), w)
      → ticket_body c ticket sid w
        ≡ (ok (http_exception 404 "session not found or does not belong to that ticket"), w)
  unfolding ticket_body except_base ◌>>=◌ on_missing
  ticket_raised ticket sid w h = rw h refl

  nuke_unknown :
      (sid : String) (w : World E)
      → get sid w.table ≡ none
      → nuke c sid w ≡ (err (key_error sid), w)
  unfolding nuke ◌>>=◌
  nuke_unknown sid w h = rw (require_err sid w h) refl

  delete_returned :
      (sid : String) (w : World E)
      → (nuke c sid w).0 ≡ ok tt
      → delete_body c sid w ≡ (ok (success 200 (record { session_id = sid })), (nuke c sid w).1)
  unfolding delete_body except_base ◌>>=◌
  delete_returned sid w h = rw h refl

  delete_raised :
      (sid : String) (w : World E)
      → nuke c sid w ≡ (err (key_error sid), w)
      → delete_body c sid w ≡ (ok (http_exception 404 "session not found"), w)
  unfolding delete_body except_base ◌>>=◌ on_missing
  delete_raised sid w h = rw h refl

  -- With a teardown that returns or fails short of an interrupt and leaves the table alone, the
  -- code of the delete endpoint always answers: with 404, and without any change, for an unknown
  -- session; with 200 for any other, whose row is then nuked, even where the teardown failed.
  pub delete_body-Answers :
      (calm : Calm c) (sid : String) (w : World E)
      → ((get sid w.table ≡ none)
          × (delete_body c sid w ≡ (ok (http_exception 404 "session not found"), w)))
        ⊎ ((r : Session) × (get sid w.table ≡ some r)
            × ((delete_body c sid w).0 ≡ ok (success 200 (record { session_id = sid })))
            × (get sid (delete_body c sid w).1.table ≡ some (with_status nuked r)))
  delete_body-Answers calm sid w = elim (Option-cases (get sid w.table)) [
    | inl e ↦ inl (e, delete_raised sid w (nuke_unknown sid w e))
    | inr (r, here) ↦
        let (result, row) = nuke_lem c calm sid r w here in
        let done = delete_returned sid w result in
        inr (
          r,
          here,
          ap (λ p. p.0) done,
          ap (λ (p : Result (Response DeleteResponse) × World E). get sid p.1.table) done ∙ row,
        )
  ]

  pub NotTheirs : String → String → World E → Type 0
  NotTheirs ticket sid w =
      (get sid w.table ≡ none)
      ⊎ ((r : Session) × (get sid w.table ≡ some r) × ((r.ticket == ticket) ≡ false))

  hidden :
      (ticket sid : String) (w : World E)
      → NotTheirs ticket sid w
      → (r : Session) → get sid w.table ≡ some r
      → (r.ticket == ticket) ≡ false
  unfolding NotTheirs
  hidden ticket sid w (inl e) r here = absurd cc
  hidden ticket sid w (inr (r', e, other)) r here = cc

  refused_ticket :
      (ticket sid : String) (w : World E)
      → NotTheirs ticket sid w
      → ticket_body c ticket sid w
        ≡ (ok (http_exception 404 "session not found or does not belong to that ticket"), w)
  refused_ticket ticket sid w h =
      ticket_raised ticket sid w (nuke_by_ticket-hidden c ticket sid w (hidden ticket sid w h))

  pub Closed : String → String → World E → Session → Type 0
  Closed ticket sid w r =
      (get sid w.table ≡ some r)
      × ((r.ticket == ticket) ≡ true)
      × ((ticket_body c ticket sid w).0
          ≡ ok (
              success 200 (record {
                ticket = ticket;
                session_id = sid;
                status = if is_nuked r.status then already_nuked else now_nuked;
              })))
      × (get sid (ticket_body c ticket sid w).1.table ≡ some (with_status nuked r))

  closed :
      (calm : Calm c) (ticket sid : String) (w : World E) (r : Session)
      → get sid w.table ≡ some r
      → (r.ticket == ticket) ≡ true
      → Closed ticket sid w r
  unfolding Closed
  closed calm ticket sid w r here same =
      let (result, row, again) = nuke_by_ticket-twice c calm ticket sid r w here same in
      let done = ticket_returned ticket sid w _ result in
      (
        here,
        same,
        ap (λ p. p.0) done,
        ap (λ (p : Result (Response TicketClosedResponse) × World E). get sid p.1.table) done ∙ row,
      )

  -- With a teardown that returns or fails short of an interrupt and leaves the table alone, the
  -- code of the webhook always answers: with the one 404, and without any change, for an unknown
  -- session and for one of another ticket; with 200 for a session of the ticket, whose row is then
  -- nuked, and which was or was not so before, as the answer says.
  pub ticket_body-Answers :
      (calm : Calm c) (ticket sid : String) (w : World E)
      → (NotTheirs ticket sid w
          × (ticket_body c ticket sid w
              ≡ (ok (http_exception 404 "session not found or does not belong to that ticket"), w)))
        ⊎ ((r : Session) × Closed ticket sid w r)
  unfolding NotTheirs
  ticket_body-Answers calm ticket sid w = elim (Option-cases (get sid w.table)) [
    | inl e ↦ inl (inl e, refused_ticket ticket sid w (inl e))
    | inr (r, here) ↦ elim (Bool-cases (r.ticket == ticket)) [
      | inl same ↦ inr (r, closed calm ticket sid w r here same)
      | inr other ↦ inl (inr (r, here, other), refused_ticket ticket sid w (inr (r, here, other)))
    ]
  ]
