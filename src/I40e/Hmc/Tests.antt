-- ===== src/I40e/Hmc/Tests.antt =====
-- The theorems on the memory of the contexts at the machine of I40e/Aq/Toy, and contexts that are
-- written.
use ufp.Common.{ℕ, ◌+◌, ◌*◌, ◌≡◌, refl, arith, some}
use ufp.Dev.Dma.{DevBuf}
use ufp.I40e.Aq.Toy.{hw, mem, system, no_buf, toy, toy-IsCounted}
use ufp.I40e.Hmc.{HmcObj, SdEntry, Hmc, i40e_hmc_va, i40e_hmc_init}
use ufp.I40e.Hmc.Context.{HmcCe, CtxRx, i40e_hmc_set_ctx_rx, i40e_hmc_write, i40e_hmc_read}
use ufp.I40e.Contexts.{rx_context}
use ufp.I40e.Hmc.Kept.{IsKept, i40e_hmc_set_ctx_rx-IsKept}
use ufp.I40e.Hmc.Address.{IsPlaced, i40e_hmc_va-IsPlaced}
use ufp.I40e.Hmc.Segments.{HmcFrom, i40e_hmc_init-areas}

-- the page `pd_idx` lies at the address that it would have if the pages were one area
page : ℕ → DevBuf
page pd_idx = record { addr_virt = 0x100000 + pd_idx * 4096; addr_dma = 0; size = 4096 }

abbrev obj_tx : HmcObj
obj_tx = record { base = 0; count = 768; size = 128 }

abbrev hmc : Hmc
hmc = record {
  obj_tx = obj_tx;
  obj_rx = record { base = 98304; count = 768; size = 32 };
  sd_count = 1;
  sd_entry = λ i. record { pd_addrs = no_buf; pd = page };
}

placed : i40e_hmc_va hmc obj_tx 37 ≡ some 0x101280
unfolding i40e_hmc_va page
placed = refl

i40e_hmc_va-IsPlaced_example : IsPlaced hmc obj_tx 37 0x101280
i40e_hmc_va-IsPlaced_example =
    i40e_hmc_va-IsPlaced hmc obj_tx 37 0x101280 32 0 refl refl (omega arith) placed

abbrev garbage : ℕ → SdEntry
garbage i = record { pd_addrs = no_buf; pd = λ j. no_buf }

i40e_hmc_init-areas_test :
    let area : ℕ × ℕ = (4096, 4096) in
    HmcFrom system 4096 hw mem area
      (λ s. s.mapped area)
      (toy-IsCounted area)
      (λ addr value s. s)
      (λ addr value s. refl)
      0
      (i40e_hmc_init hw system 4096 (λ addr value s. s) 0 garbage toy)
i40e_hmc_init-areas_test =
    let area : ℕ × ℕ = (4096, 4096) in
    i40e_hmc_init-areas system 4096 hw mem area (λ s. s.mapped area) (toy-IsCounted area)
      (λ addr value s. s) (λ addr value s. refl) 0 garbage toy

abbrev dbuff : HmcCe
dbuff = record { value = 16; size_of = 2; width = 7; lsb = 102 }

abbrev hbuff : HmcCe
hbuff = record { value = 3; size_of = 2; width = 5; lsb = 109 }

abbrev qlen : HmcCe
qlen = record { value = 512; size_of = 2; width = 13; lsb = 89 }

abbrev packed : ℕ → ℕ
packed = i40e_hmc_write 0 hbuff (i40e_hmc_write 0 dbuff (i40e_hmc_write 0 qlen (λ a. 0)))

-- `qlen` is read as it was written, but `dbuff` with the bits of `hbuff` above its own
read_back : (i40e_hmc_read 0 qlen packed ≡ 512) × (i40e_hmc_read 0 dbuff packed ≡ 272)
unfolding i40e_hmc_read i40e_hmc_write
read_back = (refl, refl)

abbrev ctx : CtxRx
ctx = rx_context 0x40000 512 2048 1518

-- the byte behind the context of the queue 37
i40e_hmc_set_ctx_rx-IsKept_example :
    IsKept 32
      (i40e_hmc_va hmc hmc.obj_rx 37)
      (λ a. 7)
      0x1184C0
      (i40e_hmc_set_ctx_rx hmc ctx 37 (λ a. 7))
i40e_hmc_set_ctx_rx-IsKept_example =
    i40e_hmc_set_ctx_rx-IsKept hmc ctx 37 (λ a. 7) 0x1184C0 (omega arith)
