-- ===== src/I40e/Mapped.antt =====
-- How often one area of memory, with its address and its size, is among buffers.
use ufp.Common.{ℕ, zero, suc, ◌+◌, ◌≤◌, ◌≡◌, refl, ◌∙◌, arith, ◌==◌, ◌&&◌, if◌then◌else◌, update}
use ufp.Dev.Dma.{DevBuf, align}

unfoldable pub mapping : (area : ℕ × ℕ) (addr size : ℕ) → ℕ
mapping area addr size = if addr == area.0 && (size == area.1) then 1 else 0

-- the sum over `n` elements from the index `i` on
unfoldable pub total : {A : Type 0} (w : A → ℕ) (n i : ℕ) (f : ℕ → A) → ℕ
total w zero i f = 0
total w (suc n) i f = w (f i) + total w n (suc i) f

abbrev pub of_buf : (page_size : ℕ) (area : ℕ × ℕ) → DevBuf → ℕ
of_buf page_size area buf = mapping area buf.addr_virt (align buf.size page_size)

module _ {A : Type 0} (w : A → ℕ) where
  total-update :
      (n i k : ℕ) (f : ℕ → A) (x : A) → i + n ≤ k → total w n i (update f k x) ≡ total w n i f
  unfolding total
  total-update zero i k f x h = refl
  total-update (suc n) i k f x h =
      let other : update f k x i ≡ f i = ground arith in
      rw other (omega (arith, total-update n (suc i) k f x (omega arith)))

  total-last : (n i k : ℕ) (f : ℕ → A) → i + n ≡ k → total w (suc n) i f ≡ total w n i f + w (f k)
  unfolding total
  total-last zero i k f e = let same : i ≡ k = omega arith in rw same (omega arith)
  total-last (suc n) i k f e = omega (arith, total-last n (suc i) k f (omega arith))

  -- a loop has filled `n` places, and fills the next one
  pub total-push :
      (n : ℕ) (f : ℕ → A) (x : A) → total w (suc n) 0 (update f n x) ≡ total w n 0 f + w x
  total-push n f x =
      let here : update f n x n ≡ x = ground arith in
      let last = total-last n 0 n (update f n x) (omega arith) in
      let rest = total-update n 0 n f x (omega arith) in rw here at last ∙ omega (arith, rest)
