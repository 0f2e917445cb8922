-- ===== src/Db/Sessions/Lifetime.antt =====
-- The lifetime of a session: opened, idle, expired, closed, purged.
use otdel.Prelude.{
  ℕ, ◌+◌, ◌≤◌, ◌≡◌, sym, ap, ◌∙◌, ◌≢◌, inl, inr, Bool, true, false, ◌&&◌, not, Option, none, some,
  List, [], ◌∷◌, ◌++◌, arith, ltb, if◌then◌else◌, Option-cases, any, filter, find?, ok,
}
use otdel.Prelude.Text.{Text, text_eq_iff, text_eq_refl}
use otdel.Core.Model.{DateTime}
use otdel.Db.Query.{update_where}
use otdel.Db.Query.Found.{find?-append, any-narrower, find?_of_any, any-filter-not, find?-filter}
use otdel.Db.Sessions.{
  Bureau, SessionRow, SessionRecord, record_from_row, new_session, bureau_id_by_slug,
  has_fingerprint, open_session, is_live, seen, touch, close, is_over, purge_expired,
}
use otdel.Storage.Uuid.{Uuid}

abbrev admits : DateTime → ℕ → Text → SessionRow → Bool
admits now idle fingerprint row = has_fingerprint fingerprint row && is_live now idle row

abbrev record_of : Option SessionRow → Option SessionRecord
record_of none = none
record_of (some row) = some (record_from_row row)

-- Who asks with this fingerprint is known as this session, or as none.
unfoldable pub session_of : DateTime → List SessionRow → Text → ℕ → Option SessionRecord
session_of now sessions fingerprint idle = record_of (find? sessions (admits now idle fingerprint))

-- With an idle timeout of a minute or more `touch` answers with the live session of the fingerprint.
touch-session_of :
    (now : DateTime) (sessions : List SessionRow) (fingerprint : Text) (idle : ℕ)
    → 60 ≤ idle
    → (after : List SessionRow) × (touch now sessions fingerprint idle
        ≡ ok (session_of now sessions fingerprint idle, after))
unfolding touch session_of record_from_row
touch-session_of now sessions fingerprint idle h =
    (update_where (admits now idle fingerprint) (seen now) sessions, ground arith)

-- What `open_session` leaves.
open_session-steps :
    (bureaus : List Bureau) (new_id : Uuid) (now : DateTime) (sessions : List SessionRow)
    (slug fingerprint csrf : Text) (ttl : ℕ) {session : SessionRecord} {after : List SessionRow}
    → open_session bureaus new_id now sessions slug fingerprint csrf ttl ≡ ok (session, after)
    → (bureau_id : Uuid) × (any sessions (has_fingerprint fingerprint) ≡ false)
      × (session ≡ record_from_row (new_session new_id now bureau_id fingerprint csrf ttl))
      × (after ≡ sessions ++ (new_session new_id now bureau_id fingerprint csrf ttl ∷ []))
unfolding open_session
open_session-steps bureaus new_id now sessions slug fingerprint csrf ttl {session} {after} h =
    elim (Option-cases (bureau_id_by_slug bureaus slug)) [
      | inl e ↦ absurd (ground arith)
      | inr (bureau_id, e) ↦ (bureau_id, ground arith, ground arith, ground arith)
    ]

session_of-new :
    (later : DateTime) (sessions : List SessionRow) (row : SessionRow) (idle : ℕ)
    → any sessions (has_fingerprint row.token_fingerprint) ≡ false
    → session_of later (sessions ++ (row ∷ [])) row.token_fingerprint idle
      ≡ (if is_live later idle row then some (record_from_row row) else none)
unfolding session_of
session_of-new later sessions row idle h =
    let p = admits later idle row.token_fingerprint in
    ground (
      arith,
      find?-append p sessions (row ∷ [])
          (any-narrower (has_fingerprint row.token_fingerprint) p sessions (λ r g. ground arith) h),
      text_eq_refl row.token_fingerprint,
    )

-- The lifetime of a new session is both bounds: for its token `touch` answers with it as long
-- as neither the time to live nor the idle timeout has passed, and with none from then on.
pub open_session-touch :
    (bureaus : List Bureau) (new_id : Uuid) (now later : DateTime) (sessions : List SessionRow)
    (slug fingerprint csrf : Text) (ttl idle : ℕ) {session : SessionRecord}
    {after : List SessionRow}
    → open_session bureaus new_id now sessions slug fingerprint csrf ttl ≡ ok (session, after)
    → 60 ≤ idle
    → (rest : List SessionRow) × (touch later after fingerprint idle
        ≡ ok (
          (if ltb later (now + ttl) && ltb later (now + idle) then some session else none),
          rest,
        ))
unfolding new_session is_live
open_session-touch bureaus new_id now later sessions slug fingerprint csrf ttl idle {session}
      {after} h le =
    let (bureau_id, fresh, e, s) =
      open_session-steps bureaus new_id now sessions slug fingerprint csrf ttl h in
    let (rest, t) = touch-session_of later after fingerprint idle le in
    (
      rest,
      t
          ∙ ap (λ out. ok (out, rest))
              (ap (λ rows. session_of later rows fingerprint idle) s
                ∙ session_of-new later sessions
                    (new_session new_id now bureau_id fingerprint csrf ttl) idle fresh
                ∙ ap
                    (λ found.
                      if ltb later (now + ttl) && ltb later (now + idle) then some found else none)
                    (sym e)),
    )

is_live-not-over :
    (now later : DateTime) (idle : ℕ) (row : SessionRow)
    → now ≤ later
    → is_live later idle row ≡ true
    → not (is_over now idle row) ≡ true
unfolding is_live is_over
is_live-not-over now later idle row le h = ground arith

purge_expired-steps :
    (now : DateTime) (sessions : List SessionRow) (idle : ℕ) {removed : ℕ} {after : List SessionRow}
    → purge_expired now sessions idle ≡ ok (removed, after)
    → (60 ≤ idle) × (after ≡ filter sessions (λ row. not (is_over now idle row)))
unfolding purge_expired
purge_expired-steps now sessions idle {removed} {after} h = (ground arith, ground arith)

purge_expired-session_of :
    (now later : DateTime) (sessions : List SessionRow) (fingerprint : Text) (idle : ℕ)
    → now ≤ later
    → session_of later (filter sessions (λ row. not (is_over now idle row))) fingerprint idle
      ≡ session_of later sessions fingerprint idle
unfolding session_of
purge_expired-session_of now later sessions fingerprint idle le = ap record_of (
    find?-filter (admits later idle fingerprint) (λ row. not (is_over now idle row)) sessions
      (λ row h. is_live-not-over now later idle row le (ground arith)))

-- A purge ends no session: from its time on `touch` answers for every token as without it.
pub purge_expired-touch :
    (now later : DateTime) (sessions : List SessionRow) (fingerprint : Text) (idle : ℕ)
    {removed : ℕ} {after : List SessionRow}
    → now ≤ later
    → purge_expired now sessions idle ≡ ok (removed, after)
    → (out : Option SessionRecord) × (rest : List SessionRow) × (rest' : List SessionRow) × (touch
          later after fingerprint idle
        ≡ ok (out, rest))
      × (touch later sessions fingerprint idle ≡ ok (out, rest'))
purge_expired-touch now later sessions fingerprint idle {removed} {after} le h =
    let (bound, e) = purge_expired-steps now sessions idle h in
    let (rest, t) = touch-session_of later after fingerprint idle bound in
    let (rest', t') = touch-session_of later sessions fingerprint idle bound in
    (
      session_of later sessions fingerprint idle,
      rest,
      rest',
      rw (sym (purge_expired-session_of now later sessions fingerprint idle le)) (rw (sym e) t),
      t',
    )

close-closed :
    (later : DateTime) (sessions : List SessionRow) (fingerprint : Text) (idle : ℕ)
    → session_of later (close sessions fingerprint).1 fingerprint idle ≡ none
unfolding close session_of
close-closed later sessions fingerprint idle =
    let left = filter sessions (λ row. not (has_fingerprint fingerprint row)) in
    ap record_of (
      find?_of_any (admits later idle fingerprint) left (
        any-narrower (has_fingerprint fingerprint) (admits later idle fingerprint) left
          (λ row h. ground arith) (any-filter-not (has_fingerprint fingerprint) sessions)))

close-others :
    (later : DateTime) (sessions : List SessionRow) (fingerprint other : Text) (idle : ℕ)
    → fingerprint ≢ other
    → session_of later (close sessions fingerprint).1 other idle
      ≡ session_of later sessions other idle
unfolding close session_of
close-others later sessions fingerprint other idle ne = ap record_of (
    find?-filter (admits later idle other) (λ row. not (has_fingerprint fingerprint row)) sessions
      (λ row h. ground (
        arith,
        text_eq_iff row.token_fingerprint fingerprint,
        text_eq_iff row.token_fingerprint other,
      )))

-- After a logout `touch` answers none for the token at any time, and for any other token it
-- answers as before.
pub close-touch :
    (later : DateTime) (sessions : List SessionRow) (fingerprint other : Text) (idle : ℕ)
    → 60 ≤ idle
    → fingerprint ≢ other
    → (rest : List SessionRow) × (touch later (close sessions fingerprint).1 fingerprint idle
        ≡ ok (none, rest))
      × (out : Option SessionRecord) × (rest' : List SessionRow) × (rest'' : List SessionRow)
      × (touch later (close sessions fingerprint).1 other idle ≡ ok (out, rest'))
      × (touch later sessions other idle ≡ ok (out, rest''))
close-touch later sessions fingerprint other idle le ne =
    let closed = (close sessions fingerprint).1 in
    let (rest, t) = touch-session_of later closed fingerprint idle le in
    let (rest', t') = touch-session_of later closed other idle le in
    let (rest'', t'') = touch-session_of later sessions other idle le in
    (
      rest,
      rw (sym (close-closed later sessions fingerprint idle)) t,
      session_of later sessions other idle,
      rest',
      rest'',
      rw (sym (close-others later sessions fingerprint other idle ne)) t',
      t'',
    )
