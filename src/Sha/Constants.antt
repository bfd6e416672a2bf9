-- ===== src/Sha/Constants.antt =====
-- The tables of emu_sha_internal.c are the roots that the standard names.
use emu_sa80535_n.Base.{◌≡◌, refl}
use emu_sa80535_n.Sha.{constants, initial, entry, working}
use emu_sa80535_n.Sha.Standard.{root, root_fraction, root_fractions, primes, first_hash}

pub constants-root_fractions : constants ≡ root_fractions 3 primes
unfolding root_fractions root_fraction root
constants-root_fractions = refl

pub initial-first_hash : working (entry initial) ≡ first_hash
unfolding working entry first_hash root_fraction root
initial-first_hash = refl
