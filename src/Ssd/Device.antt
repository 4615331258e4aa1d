-- ===== src/Ssd/Device.antt =====
-- The fields of `ssd` and its physical operations.
use life.Prelude.{
  ℕ, zero, suc, ◌+◌, ◌*◌, ◌/◌, ◌≡◌, Bool, true, false, ◌&&◌, Option, none, ltb, leb, ◌==◌,
  if◌then◌else◌, arith, Result, ok, raise, key_error,
}

pub data SsdType : Type 0 where
  direct logging ideal : SsdType

pub data PageState : Type 0 where
  invalid erased valid : PageState

abbrev pub is_valid : PageState → Bool
is_valid valid = true
is_valid invalid = false
is_valid erased = false

abbrev pub is_erased : PageState → Bool
is_erased erased = true
is_erased invalid = false
is_erased valid = false

pub record Ssd : Type 0 where
  pub ssd_type : SsdType
  pub num_logical_pages : ℕ
  pub num_blocks : ℕ
  pub pages_per_block : ℕ
  pub state : ℕ → PageState
  pub contents : ℕ → ℕ
  pub current_page : Option ℕ
  pub current_block : ℕ
  pub gc_count : ℕ
  pub gc_current_block : ℕ
  pub gc_high_water_mark : ℕ
  pub gc_low_water_mark : ℕ
  pub gc_used_blocks : ℕ → ℕ
  pub forward_map : ℕ → Option ℕ
  pub reverse_map : ℕ → Option ℕ
  pub physical_erase_count : ℕ → ℕ
  pub physical_read_count : ℕ → ℕ
  pub physical_write_count : ℕ → ℕ
  pub physical_erase_sum : ℕ
  pub physical_write_sum : ℕ
  pub physical_read_sum : ℕ
  pub logical_trim_sum : ℕ
  pub logical_write_sum : ℕ
  pub logical_read_sum : ℕ
  pub logical_trim_fail_sum : ℕ
  pub logical_write_fail_sum : ℕ
  pub logical_read_fail_sum : ℕ

abbrev pub space : ℕ
space = 32

-- `__init__`
unfoldable pub init : SsdType → ℕ → ℕ → ℕ → ℕ → ℕ → Ssd
init t num_logical_pages num_blocks pages_per_block high low = record {
  ssd_type = t;
  num_logical_pages = num_logical_pages;
  num_blocks = num_blocks;
  pages_per_block = pages_per_block;
  state = λ page. invalid;
  contents = λ page. space;
  current_page = none;
  current_block = 0;
  gc_count = 0;
  gc_current_block = 0;
  gc_high_water_mark = high;
  gc_low_water_mark = low;
  gc_used_blocks = λ block. 0;
  forward_map = λ address. none;
  reverse_map = λ page. none;
  physical_erase_count = λ block. 0;
  physical_read_count = λ block. 0;
  physical_write_count = λ block. 0;
  physical_erase_sum = 0;
  physical_write_sum = 0;
  physical_read_sum = 0;
  logical_trim_sum = 0;
  logical_write_sum = 0;
  logical_read_sum = 0;
  logical_trim_fail_sum = 0;
  logical_write_fail_sum = 0;
  logical_read_fail_sum = 0;
}

-- `d[k] = v`
abbrev pub update {ℓ} : {A : Type ℓ} → (ℕ → A) → ℕ → A → ℕ → A
update f k v j = if j == k then v else f j

-- `for page in range(...): d[page] = v`
unfoldable pub fill {ℓ} : {A : Type ℓ} → ℕ → ℕ → A → (ℕ → A) → ℕ → A
fill a zero v f = f
fill a (suc n) v f = fill (a + 1) n v (update f a v)

pub fill_lem {ℓ} :
    {A : Type ℓ} (a n : ℕ) (v : A) (f : ℕ → A) (j : ℕ)
    → fill a n v f j ≡ (if leb a j && ltb j (a + n) then v else f j)
unfolding fill
fill_lem a zero v f j = ground arith
fill_lem a (suc n) v f j = ground (arith, fill_lem (a + 1) n v (update f a v) j)

-- The assignments of `physical_erase` and of `physical_program`.
unfoldable pub wiped : ℕ → Ssd → Ssd
wiped block s = record s {
  contents = fill (block * s.pages_per_block) s.pages_per_block space s.contents;
  state = fill (block * s.pages_per_block) s.pages_per_block erased s.state;
  gc_used_blocks = update s.gc_used_blocks block 0;
  physical_erase_count = update s.physical_erase_count block (s.physical_erase_count block + 1);
  physical_erase_sum = s.physical_erase_sum + 1;
}

unfoldable pub programmed : ℕ → ℕ → Ssd → Ssd
programmed page value s =
    let block = page / s.pages_per_block in
    record s {
      contents = update s.contents page value;
      state = update s.state page valid;
      physical_write_count = update s.physical_write_count block (s.physical_write_count block + 1);
      physical_write_sum = s.physical_write_sum + 1;
    }

unfoldable pub physical_erase : ℕ → Ssd → Result Ssd
physical_erase block s = if ltb block s.num_blocks then ok (wiped block s) else raise key_error

unfoldable pub physical_program : ℕ → ℕ → Ssd → Result Ssd
physical_program page value s =
    if ltb (page / s.pages_per_block) s.num_blocks
    then ok (programmed page value s)
    else raise key_error

unfoldable pub physical_read : ℕ → Ssd → Result (Ssd × ℕ)
physical_read page s =
    let block = page / s.pages_per_block in
    if ltb block s.num_blocks
    then ok (
      record s {
        physical_read_count = update s.physical_read_count block (s.physical_read_count block + 1);
        physical_read_sum = s.physical_read_sum + 1;
      },
      s.contents page,
    )
    else raise key_error
