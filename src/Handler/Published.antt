-- ===== src/Handler/Published.antt =====
-- What it means that an event is published: each channel of an open publisher takes it at its end, if it
-- has room.
use metrics_alerting_service.Prelude.{
  ℕ, String, ◌≤◌, ◌<◌, ◌≡◌, refl, Bool, true, false, Option, none, some, List, [], ◌∷◌, ◌++◌, map,
  length, ltb, ltb→lt, if◌then◌else◌, or_else, arith,
}
use metrics_alerting_service.Audit.{Event}
use metrics_alerting_service.Audit.Publisher.{Lane, Publisher, offer}
use metrics_alerting_service.Audit.Publisher
use metrics_alerting_service.Service.{Strconv}
use metrics_alerting_service.Repository.{Storage}
use metrics_alerting_service.Http.{Request, Net}
use metrics_alerting_service.Handler.{Codecs, State, publish_to, publish_audit, client_ip}

-- the lanes before and after
pub data AreOffered (size : ℕ) (ev : Event) : List Lane → List Lane → Type 0 where
  no_lane : AreOffered size ev [] []
  has_room :
      (l : Lane) (ls ls' : List Lane)
      → length l.queue < size
      → AreOffered size ev ls ls'
      → AreOffered size ev (l ∷ ls) (record l { queue = l.queue ++ ev ∷ [] } ∷ ls')
  is_full :
      (l : Lane) (ls ls' : List Lane)
      → size ≤ length l.queue
      → AreOffered size ev ls ls'
      → AreOffered size ev (l ∷ ls) (l ∷ ls')

-- the publisher of the handlers before and after
pub data IsPublished (ev : Event) : Option Publisher → Option Publisher → Type 0 where
  no_audit : IsPublished ev none none
  closed_audit : (p : Publisher) → p.closed ≡ true → IsPublished ev (some p) (some p)
  open_audit :
      (p : Publisher) (lanes : List Lane)
      → p.closed ≡ false
      → AreOffered p.buffer_size ev p.lanes lanes
      → IsPublished ev (some p) (some (record p { lanes = lanes }))

map-AreOffered :
    (size : ℕ) (ev : Event) (ls : List Lane) → AreOffered size ev ls (map (offer size ev) ls)
unfolding offer
map-AreOffered size ev [] = no_lane
map-AreOffered size ev (l ∷ ls) =
    by_room (map-AreOffered size ev ls) (ltb (length l.queue) size) refl
  where
    by_room :
        AreOffered size ev ls (map (offer size ev) ls)
        → (b : Bool) → ltb (length l.queue) size ≡ b
        → AreOffered size ev
            (l ∷ ls)
            ((if b then record l { queue = l.queue ++ ev ∷ [] } else l) ∷ map (offer size ev) ls)
    by_room rest true e = has_room l ls _ (ltb→lt (length l.queue) size e) rest
    by_room rest false e = is_full l ls _ (not_less (length l.queue) size e) rest
      where
        not_less : (a b : ℕ) → ltb a b ≡ false → b ≤ a
        not_less a b h = ground arith

publish-IsPublished :
    (ev : Event) (p : Publisher) → IsPublished ev (some p) (some (Publisher.publish ev p))
unfolding Publisher.publish
publish-IsPublished ev p = by_closed p.closed refl
  where
    by_closed :
        (b : Bool)
        → p.closed ≡ b
        → IsPublished ev
            (some p)
            (some (if b then p else record p { lanes = map (offer p.buffer_size ev) p.lanes }))
    by_closed true e = closed_audit p e
    by_closed false e = open_audit p _ e (map-AreOffered p.buffer_size ev p.lanes)

module _ {B : Type 0} (net : Net B) (codecs : Codecs B) (conv : Strconv) where
  -- the event of a request: its time, the names, and the client's address without the port, if it has one
  abbrev pub event_of : Request B → List String → Event
  event_of r names = record {
    timestamp = r.now;
    metrics = names;
    ip_address = or_else (codecs.split_host_port r.remote_addr) r.remote_addr;
  }

  publish_to-IsPublished :
      (ev : Event) (a : Option Publisher) → IsPublished ev a (publish_to net codecs conv ev a)
  unfolding publish_to
  publish_to-IsPublished ev none = no_audit
  publish_to-IsPublished ev (some p) = publish-IsPublished ev p

  pub publish_audit-IsPublished :
      {S : Type 0} (repo : Storage S) (r : Request B) (name : String) (names : List String)
      (st : State S)
      → IsPublished
          (event_of r (name ∷ names))
          st.audit
          (publish_audit net codecs conv repo r (name ∷ names) st).audit
  unfolding publish_audit client_ip
  publish_audit-IsPublished repo r name names st =
      publish_to-IsPublished (event_of r (name ∷ names)) st.audit
