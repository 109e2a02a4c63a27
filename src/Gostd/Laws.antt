-- ===== src/Gostd/Laws.antt =====
-- Laws of the string functions that several components need.
use iplsgo.Prelude.{ℕ, ◌≡◌, refl, false, none, [], ◌∷◌, arith, Str}
use iplsgo.Gostd.{last_index_byte, contains_byte, split_host_port}

pub last_index_byte-none :
    (s : Str) (c : ℕ) → contains_byte s c ≡ false → last_index_byte s c ≡ none
unfolding last_index_byte contains_byte
last_index_byte-none [] c h = refl
last_index_byte-none (x ∷ xs) c h = ground (arith, last_index_byte-none xs c)

-- An address with no port has no host.
pub split_host_port-no_port : (s : Str) → contains_byte s b':' ≡ false → split_host_port s ≡ none
unfolding split_host_port
split_host_port-no_port s h = rw (last_index_byte-none s b':' h, split_host_port)
