-- ===== src/Tests/Snapshots.antt =====
-- The snapshots of src/persistence on fixed inputs.
use keva_db.Base.{◌≡◌, refl, [], ◌∷◌, codes}
use keva_db.Persistence.Rdb.{write_string, crc64_update, crc_fold, write_length}

short_text : write_string (codes "abc") ≡ 3 ∷ codes "abc"
unfolding write_string write_length
short_text = refl

-- The checksum of nothing.
crc_of_nothing : crc64_update 0 [] ≡ 0
unfolding crc64_update crc_fold
crc_of_nothing = refl
