-- ===== src/Malloc/Memory.antt =====
-- The memory that malloc.c works on: region and block headers at addresses, the bytes of the
-- user, the three block lists, the counters and errno; and the commands that read and write it.
use tps_sistemas_operativos.Base.{
  ℕ, ◌^◌, ◌<◌, Bool, Option, none, some, ◌==◌, if◌then◌else◌, ◌≡◌, refl, arith, ne→==,
}

abbrev pub Ptr : Type 0
Ptr = ℕ

abbrev pub null : Ptr
null = 0

abbrev pub magic : ℕ
magic = 377060

abbrev pub max_blocks : ℕ
max_blocks = 32

abbrev pub min_size : ℕ
min_size = 64

abbrev pub small_block_size : ℕ
small_block_size = 16384

abbrev pub medium_block_size : ℕ
medium_block_size = 1048576

abbrev pub large_block_size : ℕ
large_block_size = 33554432

-- `sizeof(struct region)` and `sizeof(struct block)` on a 64-bit machine.
abbrev pub region_size : ℕ
region_size = 32

abbrev pub block_size : ℕ
block_size = 16

-- `size_t` and `int` wrap at these.
abbrev pub size_mod : ℕ
size_mod = 2 ^ 64

abbrev pub int_mod : ℕ
int_mod = 2 ^ 32

abbrev pub enomem : ℕ
enomem = 12

pub record Region : Type 0 where
  pub magic_number : ℕ
  pub free : Bool
  pub size : ℕ
  pub next : Ptr
  pub prev : Ptr

pub record Block : Type 0 where
  pub next : Ptr
  pub prev : Ptr

pub record Heap : Type 0 where
  pub regions : Ptr → Option Region
  pub blocks : Ptr → Option Block
  pub bytes : Ptr → ℕ
  pub small_blocks : Ptr
  pub medium_blocks : Ptr
  pub large_blocks : Ptr
  pub blocks_mapped : ℕ
  pub amount_of_mallocs : ℕ
  pub amount_of_frees : ℕ
  pub requested_memory : ℕ
  pub errno : ℕ

-- What a run ends in: a value, a read through a pointer to no header, or fuel that ran out.
pub data Run (A : Type 0) : Type 0 where
  done : A → Heap → Run A
  segfault : Run A
  starved : Run A

abbrev pub Cmd : Type 0 → Type 0
Cmd A = Heap → Run A

abbrev pub pure : {A : Type 0} → A → Cmd A
pure a h = done a h

module _ {A B : Type 0} where
  abbrev pub continue : Run A → (A → Cmd B) → Run B
  continue (done a h) k = k a h
  continue segfault k = segfault
  continue starved k = starved

  infixl 5 ◌>>=◌ ◌>>◌
  abbrev pub ◌>>=◌ : Cmd A → (A → Cmd B) → Cmd B
  m >>= k = λ h. continue (m h) k

  abbrev pub ◌>>◌ : Cmd A → Cmd B → Cmd B
  m >> n = m >>= λ _. n

module _ {A : Type 0} where
  abbrev pub update : (Ptr → Option A) → Ptr → Option A → Ptr → Option A
  update m p v q = if q == p then v else m q

  -- What a read finds at an address.
  abbrev pub found : Option A → Cmd A
  found none = λ h. segfault
  found (some a) = pure a

-- `*p` of a region header.
unfoldable pub region_at : Ptr → Cmd Region
region_at p h = if p == null then segfault else found (h.regions p) h

-- `*p = r`, as the assignments to the fields of a header together.
abbrev pub put_region : Ptr → Region → Cmd (Unit {0})
put_region p r h = done tt (record h { regions = update h.regions p (some r) })

unfoldable pub block_at : Ptr → Cmd Block
block_at p h = if p == null then segfault else found (h.blocks p) h

abbrev pub put_block : Ptr → Block → Cmd (Unit {0})
put_block p b h = done tt (record h { blocks = update h.blocks p (some b) })

abbrev pub gets : {A : Type 0} → (Heap → A) → Cmd A
gets f h = done (f h) h

abbrev pub modify : (Heap → Heap) → Cmd (Unit {0})
modify f h = done tt (f h)

pub region_at-done :
    (h : Heap) (p : Ptr) {r : Region} → 0 < p → h.regions p ≡ some r → region_at p h ≡ done r h
unfolding region_at
region_at-done h p pos e = rw (ne→== p 0 (omega arith), e)

pub block_at-done :
    (h : Heap) (p : Ptr) {b : Block} → 0 < p → h.blocks p ≡ some b → block_at p h ≡ done b h
unfolding block_at
block_at-done h p pos e = rw (ne→== p 0 (omega arith), e)

pub region_at-null : (h : Heap) → region_at null h ≡ segfault
unfolding region_at
region_at-null h = refl
