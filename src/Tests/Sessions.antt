-- ===== src/Tests/Sessions.antt =====
-- Sessions on concrete rows and times.
use otdel.Prelude.{
  ◌+◌, ◌≡◌, refl, ◌&&◌, Option, none, some, List, [], ◌∷◌, arith, ltb, if◌then◌else◌, ok,
}
use otdel.Prelude.Text.{Text, codes, text_eq, is_ascii_digit, encode_utf8, bytes}
use otdel.Db.Sessions.{
  Bureau, SessionRow, SessionRecord, record_from_row, new_session, open_session, touch, close,
  purge_expired, bureau_id_by_slug, is_over,
}
use otdel.Db.Sessions.Lifetime.{open_session-touch, purge_expired-touch, close-touch}
use otdel.Storage.Key.{is_sha256_hex, is_lower_hex}
use otdel.Tests.Keys.{sha}

abbrev pub bureaus : List Bureau
bureaus = record { id = 1; slug = codes "local" } ∷ []

abbrev pub csrf : Text
csrf = codes "01234567890123456789"

abbrev row : SessionRow
unfolding new_session
row = new_session 5 100 1 sha csrf 600

abbrev opened : SessionRecord
unfolding row record_from_row
opened = record_from_row row

open_run : open_session bureaus 5 100 [] (codes "local") sha csrf 600 ≡ ok (opened, row ∷ [])
unfolding open_session bureau_id_by_slug is_sha256_hex is_lower_hex is_ascii_digit bytes encode_utf8
    text_eq opened row
open_run = refl

open_session-touch_example :
    (rest : List SessionRow) × (touch 300 (row ∷ []) sha 120
      ≡ ok ((if ltb 300 (100 + 600) && ltb 300 (100 + 120) then some opened else none), rest))
open_session-touch_example =
    open_session-touch bureaus 5 100 300 [] (codes "local") sha csrf 600 120 open_run (omega arith)

purge_run : purge_expired 300 (row ∷ []) 120 ≡ ok (1, [])
unfolding purge_expired is_over row new_session
purge_run = refl

purge_expired-touch_example :
    (out : Option SessionRecord) × (rest : List SessionRow) × (rest' : List SessionRow) × (touch 301
        [] sha 120
      ≡ ok (out, rest))
    × (touch 301 (row ∷ []) sha 120 ≡ ok (out, rest'))
purge_expired-touch_example = purge_expired-touch 300 301 (row ∷ []) sha 120 (omega arith) purge_run

close-touch_example :
    (rest : List SessionRow) × (touch 101 (close (row ∷ []) sha).1 sha 120 ≡ ok (none, rest))
    × (out : Option SessionRecord) × (rest' : List SessionRow) × (rest'' : List SessionRow) × (touch
          101
          (close (row ∷ []) sha).1
          (codes "other")
          120
        ≡ ok (out, rest'))
    × (touch 101 (row ∷ []) (codes "other") 120 ≡ ok (out, rest''))
close-touch_example =
    close-touch 101 (row ∷ []) sha (codes "other") 120 (omega arith) (λ e. ground arith)
