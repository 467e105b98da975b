-- ===== src/Neigh/Keys.antt =====
-- src/neigh.c: the keys of neighbour tables. Two addresses compare as equal exactly if they have the
-- same words, and hashes are indices of the array of chains.
use ufp.Common.{ℕ, ◌<◌, ◌≡◌, refl, ◌&&◌, ◌==◌, arith}
use ufp.Common.Bits.{bit_xor-zero}
use ufp.Pool.{Pool}
use ufp.Hash.{hash_bit, hash_size}
use ufp.Hash.Chain.{KeyLaws}
use ufp.Neigh.{
  neigh_key_generate_v4, neigh_key_generate_v6, neigh_key_compare_v4, neigh_key_compare_v6,
  double_word, ops_v4, ops_v6,
}

-- IPv4 keys compare as equal exactly if word 0 is the same.
pub compare_v4 : (a b : ℕ → ℕ) → (neigh_key_compare_v4 a b == 0) ≡ (a 0 == b 0)
unfolding neigh_key_compare_v4
compare_v4 a b = ground (arith, bit_xor-zero (a 0) (b 0))

-- IPv6 keys compare as equal exactly if both double words are the same.
pub compare_v6 :
    (a b : ℕ → ℕ)
    → (neigh_key_compare_v6 a b == 0)
      ≡ ((double_word a 0 == double_word b 0) && (double_word a 1 == double_word b 1))
unfolding neigh_key_compare_v6
compare_v6 a b = ground (
  arith,
  bit_xor-zero (double_word a 0) (double_word b 0),
  bit_xor-zero (double_word a 1) (double_word b 1),
)

-- An IPv4 hash is an index of the array of chains.
pub generate_v4-bound : (a : ℕ → ℕ) → neigh_key_generate_v4 a hash_bit < hash_size
unfolding neigh_key_generate_v4
generate_v4-bound a = omega arith

-- An IPv6 hash is an index of the array of chains.
pub generate_v6-bound : (a : ℕ → ℕ) → neigh_key_generate_v6 a hash_bit < hash_size
unfolding neigh_key_generate_v6
generate_v6-bound a = omega arith

module _ {S : Type 0} (mem : Pool S) where
  pub laws_v4 : KeyLaws (ops_v4 mem)
  unfolding neigh_key_generate_v4
  laws_v4 = record {
    same_refl = λ a. ground (arith, compare_v4 a a);
    same_symm = λ a b. ground (arith, compare_v4 a b, compare_v4 b a);
    same_trans = λ a b c. ground (arith, compare_v4 a b, compare_v4 b c, compare_v4 a c);
    one_chain = λ a b bits e.
        let same_word : a 0 ≡ b 0 = ground (arith, compare_v4 a b) in rw same_word refl;
  }

  pub laws_v6 : KeyLaws (ops_v6 mem)
  unfolding neigh_key_generate_v6
  laws_v6 = record {
    same_refl = λ a. ground (arith, compare_v6 a a);
    same_symm = λ a b. ground (arith, compare_v6 a b, compare_v6 b a);
    same_trans = λ a b c. ground (arith, compare_v6 a b, compare_v6 b c, compare_v6 a c);
    one_chain = λ a b bits e.
        let same_low : double_word a 0 ≡ double_word b 0 = ground (arith, compare_v6 a b) in
        let same_high : double_word a 1 ≡ double_word b 1 = ground (arith, compare_v6 a b) in
        rw (same_low, same_high) refl;
  }
