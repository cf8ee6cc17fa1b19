-- ===== src/Handler/Outcomes.antt =====
-- How the handlers that update metrics may end: the status, the storage and the audit together.
use metrics_alerting_service.Prelude.{
  ℕ, String, ◌≡◌, refl, ap, sym, ◌∙◌, subst, ◌≢◌, Bool, true, false, ◌==◌, if◌then◌else◌, ◌⊎◌, inl,
  inr, Option, none, some, List, [], ◌∷◌, eq_iff, Option-cases, arith,
}
use metrics_alerting_service.Model.{Metrics, Float64, Int64, gauge, counter}
use metrics_alerting_service.Errors.{
  Error, ok, ◌>>=◌, empty_id, missing_value, missing_delta, invalid_type,
}
use mathlib.Core.Bool.{true≢false}
use metrics_alerting_service.Handler.Published.{IsPublished, event_of, publish_audit-IsPublished}
use metrics_alerting_service.Repository.{Storage}
use metrics_alerting_service.Repository.Laws.{IsLawful}
use metrics_alerting_service.Service
use metrics_alerting_service.Service.{Strconv}
use metrics_alerting_service.Service.Accept.{
  IsAcceptable, refusal, refusal-IsAcceptable, IsAcceptable-refusal, update_json-refusal, Accepted,
  as_gauge, as_counter, accepted,
}
use metrics_alerting_service.Service.Update.{update_json-ok_iff}
use metrics_alerting_service.Http.{Request, Op, status, Net}
use metrics_alerting_service.Handler.{
  Codecs, State, update_handler, update_with, after_update, parse_value, bad_request,
  write_service_error, service_status, update_json_handler, update_json_decoded, update_json_reply,
}

-- The status with which `UpdateJSON` refuses a metric.
pub data IsRefusal (m : Metrics) : ℕ → Type 0 where
  no_name : m.id ≡ "" → IsRefusal m 404
  no_value : m.id ≢ "" → m.m_type ≡ gauge → m.value ≡ none → IsRefusal m 400
  no_delta : m.id ≢ "" → m.m_type ≡ counter → m.delta ≡ none → IsRefusal m 400
  unknown_type : m.id ≢ "" → m.m_type ≢ gauge → m.m_type ≢ counter → IsRefusal m 400

status_of : Option Error → ℕ
status_of none = 0
status_of (some e) = service_status e

differs : (s t : String) → (s == t) ≡ false → s ≢ t
differs s t h e = absurd (true≢false (sym ((eq_iff s t).1 e) ∙ h))

refusal-IsRefusal : (m : Metrics) (e : Error) → refusal m ≡ some e → IsRefusal m (service_status e)
unfolding refusal service_status status_of
refusal-IsRefusal m e h =
    by_tests (m.id == "") (m.m_type == gauge) (m.m_type == counter) m.value m.delta refl refl refl
      refl refl h
  where
    refused :
        (x : Error)
        → IsRefusal m (service_status x)
        → some x ≡ some e
        → IsRefusal m (service_status e)
    refused x r q = subst (λ o. IsRefusal m (status_of o)) q r

    by_tests :
        (b g c : Bool) (v d : Option ℕ)
        → (m.id == "") ≡ b
        → (m.m_type == gauge) ≡ g
        → (m.m_type == counter) ≡ c
        → m.value ≡ v
        → m.delta ≡ d
        → (if b
            then some empty_id
            else if g
            then elim v [ none ↦ some missing_value | some _ ↦ none ]
            else if c
            then elim d [ none ↦ some missing_delta | some _ ↦ none ]
            else some invalid_type)
          ≡ some e
        → IsRefusal m (service_status e)
    by_tests true g c v d eb eg ec ev ed q = refused empty_id (no_name ((eq_iff m.id "").0 eb)) q
    by_tests false true c none d eb eg ec ev ed q =
        refused missing_value (no_value (differs m.id "" eb) ((eq_iff m.m_type gauge).0 eg) ev) q
    by_tests false true c (some v) d eb eg ec ev ed q = cc
    by_tests false false true v none eb eg ec ev ed q =
        refused missing_delta (no_delta (differs m.id "" eb) ((eq_iff m.m_type counter).0 ec) ed) q
    by_tests false false true v (some d) eb eg ec ev ed q = cc
    by_tests false false false v d eb eg ec ev ed q =
        refused invalid_type
          (unknown_type (differs m.id "" eb) (differs m.m_type gauge eg)
            (differs m.m_type counter ec))
          q

module _ {B : Type 0} (net : Net B) (codecs : Codecs B) (conv : Strconv)
    (error_status : (text : String) (code : ℕ) → status (net.error text code) ≡ code) {S : Type 0}
    (repo : Storage S) where
  -- An answer 200, the storage `s`, and an event of the request with `names` published.
  abbrev pub IsAudited : Request B → State S → List String → S → List (Op B) × State S → Type 0
  IsAudited r st names s o =
      (status o.0 ≡ 200)
      × (o.1.store ≡ s)
      × IsPublished (event_of net codecs conv r names) st.audit o.1.audit

  abbrev pub IsRejected : State S → ℕ → List (Op B) × State S → Type 0
  IsRejected st code o = (status o.0 ≡ code) × (o.1 ≡ st)

  module _ (law : IsLawful repo) where
    update-known :
        (name m_type : String) (v : Float64) (d : Int64) (s : S)
        → (m_type ≡ gauge) ⊎ (m_type ≡ counter)
        → (Service.update repo name m_type v d s).0 ≡ none
    unfolding Service.update
    update-known name m_type v d s h = ground (
      arith,
      law.update_gauge_ok name v s,
      law.update_counter_ok name d s,
      eq_iff m_type gauge,
      eq_iff m_type counter,
    )

    parse_value-known :
        (m_type text : String) (x : Float64 × Int64)
        → parse_value net codecs conv repo m_type text ≡ some x
        → (m_type ≡ gauge) ⊎ (m_type ≡ counter)
    unfolding parse_value
    parse_value-known m_type text x h = ground (arith, eq_iff m_type gauge, eq_iff m_type counter)

    after_update-ok :
        (r : Request B) (name : String) (st : State S) (o : Option Error × S)
        → o.0 ≡ none
        → IsAudited r st (name ∷ []) o.1 (after_update net codecs conv repo r name st o)
    unfolding after_update status
    after_update-ok r name st (none, s) h = (
      refl,
      refl,
      publish_audit-IsPublished net codecs conv repo r name [] (record st { store = s }),
    )
    after_update-ok r name st (some e, s) h = cc

    update_with_outcome :
        (r : Request B) (name m_type text : String) (st : State S) (x : Option (Float64 × Int64))
        → parse_value net codecs conv repo m_type text ≡ x
        → let o = update_with net codecs conv repo r name m_type x st in
          ((v : Float64) × (d : Int64) × (x ≡ some (v, d))
            × IsAudited r st (name ∷ []) (Service.update repo name m_type v d st.store).1 o)
          ⊎ ((x ≡ none) × IsRejected st 400 o)
    unfolding update_with bad_request
    update_with_outcome r name m_type text st none h =
        inr (refl, (error_status (codecs.status_text 400) 400, refl))
    update_with_outcome r name m_type text st (some (v, d)) h = inl (
      v,
      d,
      refl,
      after_update-ok r name st (Service.update repo name m_type v d st.store)
          (update-known name m_type v d st.store (parse_value-known m_type text (v, d) h)),
    )

    -- POST /update/{type}/{name}/{value} over a lawful storage ends in one of two ways. The type is
    -- known and the value parses: the answer is 200, the storage is updated with it and an event
    -- with the name is published. Or not: the answer is 400 and nothing has changed.
    update_handler_outcome :
        (r : Request B) (st : State S)
        → let x = parse_value net codecs conv repo (r.url_param "type") (r.url_param "value") in
          let o = update_handler net codecs conv repo r st in
          ((v : Float64) × (d : Int64) × (x ≡ some (v, d))
            × IsAudited r st
                (r.url_param "name" ∷ [])
                (Service.update repo (r.url_param "name") (r.url_param "type") v d st.store).1
                o)
          ⊎ (x ≡ none) × IsRejected st 400 o
    unfolding update_handler
    update_handler_outcome r st =
        update_with_outcome r (r.url_param "name") (r.url_param "type") (r.url_param "value") st
          (parse_value net codecs conv repo (r.url_param "type") (r.url_param "value")) refl

    refused_status :
        (m : Metrics) (st : State S) (r : Request B) (e : Error)
        → refusal m ≡ some e
        → let o = update_json_decoded net codecs conv repo r (ok m) st in
          (status o.0 ≡ service_status e) × (o.1 ≡ st)
    unfolding update_json_decoded write_service_error
    refused_status m st r e h =
        rw (update_json-refusal repo law m e st.store h)
          (error_status (codecs.message e) (service_status e), refl)

    -- The storage `s`, and an event of the request with the name `id` published.
    abbrev pub IsRecorded : Request B → State S → String → S → State S → Type 0
    IsRecorded r st id s out =
        (out.store ≡ s) × IsPublished (event_of net codecs conv r (id ∷ [])) st.audit out.audit

    update_json_reply-ok :
        (r : Request B) (st : State S) (o : Metrics × Option Error × S)
        → o.1 ≡ none
        → IsRecorded r st o.0.id o.2 (update_json_reply net codecs conv repo r st o).1
    unfolding update_json_reply
    update_json_reply-ok r st (m, none, s) h =
        (refl, publish_audit-IsPublished net codecs conv repo r m.id [] (record st { store = s }))
    update_json_reply-ok r st (m, some e, s) h = cc

    same_name :
        (m : Metrics) (s : S) → Accepted repo law m s → (Service.update_json repo m s).0.id ≡ m.id
    same_name m s (as_gauge v t e q) = ap (λ (x : Metrics × Option Error × S). x.0.id) q
    same_name m s (as_counter d t e q) = ap (λ (x : Metrics × Option Error × S). x.0.id) q

    recorded :
        (r : Request B) (st : State S) (m : Metrics)
        → IsAcceptable m
        → IsRecorded r st m.id
            (Service.update_json repo m st.store).2
            (update_json_reply net codecs conv repo r st (Service.update_json repo m st.store)).1
    recorded r st m a =
        subst
          (λ id.
            IsRecorded r st id (Service.update_json repo m st.store).2
              (update_json_reply net codecs conv repo r st (Service.update_json repo m st.store)).1)
          (same_name m st.store (accepted repo law m st.store a))
          (update_json_reply-ok r st (Service.update_json repo m st.store)
            ((update_json-ok_iff repo law m st.store).1 a))

    -- POST /update/ over a lawful storage, with a body that decodes to `m`. If `m` is acceptable, the
    -- storage is as `UpdateJSON` left it, and an event with the time of the request, the name of `m` and
    -- the client's address is offered to each channel of an open audit. If not, the answer is 404 for a
    -- metric without a name and 400 for one without a known type or without its value, and nothing has
    -- changed.
    pub update_json_handler_outcome :
        (r : Request B) (st : State S) (m : Metrics)
        → (r.body >>= codecs.decode_metric) ≡ ok m
        → let o = update_json_handler net codecs conv repo r st in
          IsAcceptable m × IsRecorded r st m.id (Service.update_json repo m st.store).2 o.1
          ⊎ (¬ IsAcceptable m) × IsRefusal m (status o.0) × (o.1 ≡ st)
    unfolding update_json_handler update_json_decoded
    update_json_handler_outcome r st m h = elim (Option-cases (refusal m)) [
      | inl e ↦
          let a : IsAcceptable m = refusal-IsAcceptable m e in inl (a, rw h (recorded r st m a))
      | inr (e, h') ↦
          let (code, same) = refused_status m st r e h' in
          inr
            (λ a. cc (IsAcceptable-refusal m a), rw (h, code) (refusal-IsRefusal m e h'), rw h same)
    ]
