-- ===== src/Xacto/Versions.antt =====
-- The versions of hw5/src/data.c. The links to the next and the previous version are kept by the
-- store, which is a library, and are left out; a blob or a transaction is as the call leaves it.
use c_language.Prelude.{
  ◌+◌, ◌<◌, ◌≡◌, refl, arith, false, Option, none, some, ◌==◌, if◌then◌else◌, u32,
}
use c_language.Xacto.Data.{Blob, blob_ref}
use c_language.Xacto.Transaction.{Transaction}

pub record Version : Type 0 where
  pub creator : Transaction
  pub blob : Option Blob

unfoldable pub hold : Transaction → Transaction
hold tp = record tp { refcnt = u32 (tp.refcnt + 1) }

unfoldable pub version_create : Transaction → Option Blob → Version
version_create tp (some bp) = record { creator = hold tp; blob = some (blob_ref bp) }
version_create tp none = record { creator = hold tp; blob = none }

-- bp->refcnt-1==0: the blob that is left, or `none` where it is freed.
unfoldable pub drop_blob : Blob → Option Blob
drop_blob bp =
    let left = u32 (bp.refcnt + 4294967295) in
    if left == 0 then none else some (record bp { refcnt = left })

-- The transaction and the blob after the call. Without a blob its mutex is looked up through a
-- null pointer.
unfoldable pub dispose : Transaction → Option Blob → Option (Transaction × Option Blob)
dispose tp none = none
dispose tp (some bp) = some (record tp { refcnt = u32 (tp.refcnt + 4294967295) }, drop_blob bp)

unfoldable pub version_dispose : Version → Option (Transaction × Option Blob)
version_dispose v = dispose v.creator v.blob

-- version_create takes a reference of its own to the blob, which version_dispose gives up: a
-- version that is created and disposed of again leaves the transaction and the blob as they were,
-- with the caller's reference still counted, while the counts do not wrap. A version without a blob
-- cannot be disposed of.
pub version_dispose-version_create :
    (tp : Transaction) (bp : Blob)
    → tp.refcnt < 4294967295
    → 0 < bp.refcnt
    → bp.refcnt < 4294967295
    → (version_dispose (version_create tp (some bp)) ≡ some (tp, some bp))
      × (version_dispose (version_create tp none) ≡ none)
unfolding version_dispose version_create dispose drop_blob hold c_language.Xacto.Data.blob_ref
version_dispose-version_create tp bp a b c =
    let t : u32 (u32 (tp.refcnt + 1) + 4294967295) ≡ tp.refcnt = omega arith in
    let r : u32 (u32 (bp.refcnt + 1) + 4294967295) ≡ bp.refcnt = omega arith in
    let z : (bp.refcnt == 0) ≡ false = ground arith in (rw (t, r, z) refl, refl)
