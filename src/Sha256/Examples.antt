-- ===== src/Sha256/Examples.antt =====
-- The hash of a short text in two pieces.
use styio_platform.Base.{◌≡◌, refl, some, [], ◌∷◌}
use styio_platform.Sha256.{sha256_pieces}
use styio_platform.Sha256.Words.{transform}
use styio_platform.Sha256.Fips.{sha256}
use styio_platform.Sha256.Standard.{sha256_pieces-sha256}

hashes_abc :
    sha256_pieces ((97 ∷ []) ∷ (98 ∷ 99 ∷ []) ∷ [])
    ≡ some "ba7816bf8f01cfea414140de5dae2223b00361a396177a9cb410ff61f20015ad"
unfolding sha256_pieces transform
hashes_abc = refl

sha256_pieces-sha256_example :
    sha256_pieces ((97 ∷ []) ∷ (98 ∷ 99 ∷ []) ∷ []) ≡ some (sha256 (97 ∷ 98 ∷ 99 ∷ []))
sha256_pieces-sha256_example = sha256_pieces-sha256 ((97 ∷ []) ∷ (98 ∷ 99 ∷ []) ∷ [])
