-- ===== src/Storage/Disk/Entries.antt =====
-- The laws of lookups in a file tree.
use otdel.Prelude.{◌≡◌, refl, ◌≢◌, ◌↔◌, true, false, none, some, [], ◌∷◌, arith, if◌then◌else◌}
use otdel.Prelude.Text.{text_eq_iff}
use otdel.Storage.Key.{FilePath}
use otdel.Storage.Disk.{Entry, Entries, path_eq, lookup, insert, erase}

pub path_eq_iff : (p q : FilePath) → (path_eq p q ≡ true) ↔ (p ≡ q)
unfolding path_eq
path_eq_iff [] [] = (λ h. refl, λ h. refl)
path_eq_iff [] (q ∷ qs) = (λ h. cc, λ h. cc)
path_eq_iff (p ∷ ps) [] = (λ h. cc, λ h. cc)
path_eq_iff (p ∷ ps) (q ∷ qs) = ground (arith, text_eq_iff p q, path_eq_iff ps qs)

pub path_eq_refl : (p : FilePath) → path_eq p p ≡ true
path_eq_refl p = (path_eq_iff p p).1 refl

pub path_ne : (p q : FilePath) → p ≢ q → path_eq p q ≡ false
path_ne p q h = ground (arith, path_eq_iff p q)

pub lookup-insert :
    (p q : FilePath) (v : Entry) (es : Entries)
    → lookup q (insert p v es) ≡ (if path_eq p q then some v else lookup q es)
unfolding lookup insert
lookup-insert p q v [] = refl
lookup-insert p q v ((r, e) ∷ es) =
    ground (arith, path_eq_iff p q, path_eq_iff r p, path_eq_iff r q, lookup-insert p q v es)

pub lookup-erase :
    (p q : FilePath) (es : Entries)
    → lookup q (erase p es) ≡ (if path_eq p q then none else lookup q es)
unfolding lookup erase
lookup-erase p q [] = ground arith
lookup-erase p q ((r, e) ∷ es) =
    ground (arith, path_eq_iff p q, path_eq_iff r p, path_eq_iff r q, lookup-erase p q es)
