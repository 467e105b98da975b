-- ===== src/I40e/Hmc/Context.antt =====
-- dev/i40e/i40e_hmc.c and i40e_hmc.h: the contexts of queues, whose fields are packed into bits. The
-- memory is a function from addresses to bytes.
use Prim.Native.Nat.{bit_or, bit_and}
use ufp.Common.{
  ℕ, zero, suc, ◌+◌, ◌-◌, ◌*◌, ◌/◌, ◌%◌, ◌^◌, ltb, leb, ◌&&◌, Bool, true, false, if◌then◌else◌,
  Option, none, some, List, [], ◌∷◌, update,
}
use ufp.I40e.Hmc.{Hmc, HmcObj, i40e_hmc_va}

-- `struct i40e_hmc_ce`, with the field's value in place of its offset
pub record HmcCe : Type 0 where
  pub value : ℕ
  pub size_of : ℕ
  pub width : ℕ
  pub lsb : ℕ

pub record CtxRx : Type 0 where
  pub head : ℕ
  pub cpuid : ℕ
  pub base : ℕ
  pub qlen : ℕ
  pub dbuff : ℕ
  pub hbuff : ℕ
  pub dtype : ℕ
  pub dsize : ℕ
  pub crcstrip : ℕ
  pub fc_en : ℕ
  pub l2tsel : ℕ
  pub hsplit_0 : ℕ
  pub hsplit_1 : ℕ
  pub showiv : ℕ
  pub rxmax : ℕ
  pub tphrdesc_en : ℕ
  pub tphwdesc_en : ℕ
  pub tphdata_en : ℕ
  pub tphhead_en : ℕ
  pub lrxqthresh : ℕ
  pub pref_en : ℕ

pub record CtxTx : Type 0 where
  pub head : ℕ
  pub new_context : ℕ
  pub base : ℕ
  pub fc_en : ℕ
  pub timesync_en : ℕ
  pub fd_en : ℕ
  pub alt_vlan_en : ℕ
  pub thead_wb : ℕ
  pub cpuid : ℕ
  pub head_wb_en : ℕ
  pub qlen : ℕ
  pub tphrdesc_en : ℕ
  pub tphrpkt_en : ℕ
  pub tphwdesc_en : ℕ
  pub headwb_addr : ℕ
  pub crc : ℕ
  pub rdylist : ℕ
  pub rdylist_act : ℕ

abbrev ce : (value size_of width lsb : ℕ) → HmcCe
ce value size_of width lsb = record { value = value; size_of = size_of; width = width; lsb = lsb }

unfoldable pub hmc_ce_rx : CtxRx → List HmcCe
hmc_ce_rx ctx =
    ce ctx.head 2 13 0
    ∷ ce ctx.cpuid 2 8 13
    ∷ ce ctx.base 8 57 32
    ∷ ce ctx.qlen 2 13 89
    ∷ ce ctx.dbuff 2 7 102
    ∷ ce ctx.hbuff 2 5 109
    ∷ ce ctx.dtype 1 2 114
    ∷ ce ctx.dsize 1 1 116
    ∷ ce ctx.crcstrip 1 1 117
    ∷ ce ctx.fc_en 1 1 118
    ∷ ce ctx.l2tsel 1 1 119
    ∷ ce ctx.hsplit_0 1 4 120
    ∷ ce ctx.hsplit_1 1 2 124
    ∷ ce ctx.showiv 1 1 127
    ∷ ce ctx.rxmax 4 14 174
    ∷ ce ctx.tphrdesc_en 1 1 193
    ∷ ce ctx.tphwdesc_en 1 1 194
    ∷ ce ctx.tphdata_en 1 1 195
    ∷ ce ctx.tphhead_en 1 1 196
    ∷ ce ctx.lrxqthresh 2 3 198
    ∷ ce ctx.pref_en 1 1 201
    ∷ []

unfoldable pub hmc_ce_tx : CtxTx → List HmcCe
hmc_ce_tx ctx =
    ce ctx.head 2 13 0
    ∷ ce ctx.new_context 1 1 30
    ∷ ce ctx.base 8 57 32
    ∷ ce ctx.fc_en 1 1 89
    ∷ ce ctx.timesync_en 1 1 90
    ∷ ce ctx.fd_en 1 1 91
    ∷ ce ctx.alt_vlan_en 1 1 92
    ∷ ce ctx.cpuid 1 8 96
    ∷ ce ctx.thead_wb 2 13 (0 + 128)
    ∷ ce ctx.head_wb_en 1 1 (32 + 128)
    ∷ ce ctx.qlen 2 13 (33 + 128)
    ∷ ce ctx.tphrdesc_en 1 1 (46 + 128)
    ∷ ce ctx.tphrpkt_en 1 1 (47 + 128)
    ∷ ce ctx.tphwdesc_en 1 1 (48 + 128)
    ∷ ce ctx.headwb_addr 8 64 (64 + 128)
    ∷ ce ctx.crc 4 32 (0 + 7 * 128)
    ∷ ce ctx.rdylist 2 10 (84 + 7 * 128)
    ∷ ce ctx.rdylist_act 1 1 (94 + 7 * 128)
    ∷ []

-- the byte `i` of a field of the host, and its mask: `width_remain` is a `uint16_t`, which wraps in
-- the bytes that the field does not reach
abbrev pub data_byte : HmcCe → ℕ → ℕ
data_byte f i = f.value / 2 ^ (8 * i) % 2 ^ 8

abbrev pub mask_byte : HmcCe → ℕ → ℕ
mask_byte f i =
    let width_remain = (f.width + 2 ^ 16 - 8 * i) % 2 ^ 16 in
    2 ^ (if ltb width_remain 8 then width_remain else 8) - 1

abbrev pub shift_width : HmcCe → ℕ
shift_width f = f.lsb % 8

-- The loop over the bytes of the field from `i` on, with the rounds that are left. The value is not
-- masked.
unfoldable pub write_bytes : (n i prev_data prev_mask dst : ℕ) (f : HmcCe) → (ℕ → ℕ) → ℕ → ℕ
write_bytes zero i prev_data prev_mask dst f m = m
write_bytes (suc n) i prev_data prev_mask dst f m =
    let byte_data = bit_or (data_byte f i * 2 ^ shift_width f % 2 ^ 8) prev_data in
    let byte_mask = bit_or (mask_byte f i * 2 ^ shift_width f % 2 ^ 8) prev_mask in
    write_bytes n (suc i) (data_byte f i / 2 ^ (8 - shift_width f))
      (mask_byte f i / 2 ^ (8 - shift_width f)) dst f
      (update m (dst + i) (bit_or byte_data (bit_and (255 - byte_mask) (m (dst + i)))))

unfoldable pub i40e_hmc_write : (hmc_bits : ℕ) → HmcCe → (ℕ → ℕ) → ℕ → ℕ
unfolding write_bytes
i40e_hmc_write hmc_bits f m = write_bytes f.size_of 0 0 0 (hmc_bits + f.lsb / 8) f m

-- The loop from the last byte down to the first: the value of the bytes below `n`.
unfoldable pub read_bytes : (n next_data src : ℕ) (f : HmcCe) → (ℕ → ℕ) → ℕ
read_bytes zero next_data src f m = 0
read_bytes (suc i) next_data src f m =
    let byte_data = bit_or (m (src + i) / 2 ^ shift_width f) next_data in
    bit_and byte_data (mask_byte f i) * 2 ^ (8 * i)
    + read_bytes i (m (src + i) * 2 ^ (8 - shift_width f) % 2 ^ 8) src f m

-- no caller in the code
unfoldable pub i40e_hmc_read : (hmc_bits : ℕ) → HmcCe → (ℕ → ℕ) → ℕ
unfolding read_bytes
i40e_hmc_read hmc_bits f m = read_bytes f.size_of 0 (hmc_bits + f.lsb / 8) f m

unfoldable pub write_fields : (hmc_bits : ℕ) → List HmcCe → (ℕ → ℕ) → ℕ → ℕ
unfolding i40e_hmc_write
write_fields hmc_bits [] m = m
write_fields hmc_bits (f ∷ rest) m = write_fields hmc_bits rest (i40e_hmc_write hmc_bits f m)

abbrev pub memset_0 : (addr size : ℕ) → (ℕ → ℕ) → ℕ → ℕ
memset_0 addr size m = λ a. if leb addr a && ltb a (addr + size) then 0 else m a

abbrev pub set_ctx : HmcObj → List HmcCe → Option ℕ → (ℕ → ℕ) → Bool × (ℕ → ℕ)
set_ctx obj fields none m = (false, m)
set_ctx obj fields (some hmc_va) m = (true, write_fields hmc_va fields (memset_0 hmc_va obj.size m))

unfoldable pub i40e_hmc_set_ctx_tx : Hmc → CtxTx → (qp_idx : ℕ) → (ℕ → ℕ) → Bool × (ℕ → ℕ)
unfolding write_fields hmc_ce_tx set_ctx
i40e_hmc_set_ctx_tx hmc ctx qp_idx m =
    set_ctx hmc.obj_tx (hmc_ce_tx ctx) (i40e_hmc_va hmc hmc.obj_tx qp_idx) m

unfoldable pub i40e_hmc_set_ctx_rx : Hmc → CtxRx → (qp_idx : ℕ) → (ℕ → ℕ) → Bool × (ℕ → ℕ)
unfolding write_fields hmc_ce_rx set_ctx
i40e_hmc_set_ctx_rx hmc ctx qp_idx m =
    set_ctx hmc.obj_rx (hmc_ce_rx ctx) (i40e_hmc_va hmc hmc.obj_rx qp_idx) m
