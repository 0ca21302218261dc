-- ===== src/Feed/Mold/Session.antt =====
-- `MoldUDP64Framer::feed` and the session: a framer that has one keeps it.
use fastbook.Prelude.{ℕ, ◌≡◌, ◌≢◌, arith, List, some, true, Option-cases, inl, inr}
use fastbook.Feed.Mold.{
  Header, Framer, session_changed, read_header, adopt_session, feed_in_session, feed_header, feed,
}

abbrev pub InSession : Framer → Framer → Type 0
InSession f f' = (f'.last_session ≡ f.last_session) × (f'.has_session ≡ true)

feed_in_session-InSession :
    (f : Framer) (hdr : Header) (body : List ℕ)
    → f.has_session ≡ true
    → InSession f (feed_in_session f hdr body).0
unfolding feed_in_session
feed_in_session-InSession f hdr body h = ground arith

feed_header-InSession :
    (f : Framer) (hdr : Header) (body : List ℕ)
    → f.has_session ≡ true
    → (feed_header f hdr body).2 ≢ some session_changed
    → InSession f (feed_header f hdr body).0
unfolding feed_header adopt_session
feed_header-InSession f hdr body h = ground (arith, feed_in_session-InSession f hdr body h)

-- A framer that has a session keeps it, unless it reports another.
pub feed-InSession :
    (f : Framer) (buf : List ℕ)
    → f.has_session ≡ true
    → (feed f buf).2 ≢ some session_changed
    → InSession f (feed f buf).0
unfolding feed
feed-InSession f buf h = elim (Option-cases (read_header buf)) [
  | inl e ↦ rw (e, feed) (ground arith)
  | inr (r, e) ↦ rw (e, feed) (feed_header-InSession f r.0 r.1 h)
]
