-- ===== src/Process/Ledger.antt =====
-- src/main.c: a ledger beside the system, in which each call that gets a thing and each that gives
-- one back is booked with its handle.
use ufp.Common.{ℕ, ◌+◌, ◌==◌, if◌then◌else◌, Bool, true, false, Option, none, some}
use ufp.Process.{Calls}

-- a block of memory, a memory pool, an open device, a device that is up, the buffers and the plane
-- of a thread
pub data Thing : Type 0 where
  block pool opened running buffers plane : (handle : ℕ) → Thing

abbrev pub same_thing : Thing → Thing → Bool
same_thing (block h) (block h') = h == h'
same_thing (pool h) (pool h') = h == h'
same_thing (opened h) (opened h') = h == h'
same_thing (running h) (running h') = h == h'
same_thing (buffers h) (buffers h') = h == h'
same_thing (plane h) (plane h') = h == h'
same_thing _ _ = false

unfoldable pub count : Thing → Thing → ℕ
count q thing = if same_thing q thing then 1 else 0

-- how often each thing was got, and how often it was given back
pub record Booked (S : Type 0) : Type 0 where
  pub state : S
  pub got : Thing → ℕ
  pub gone : Thing → ℕ

abbrev pub opening : {S : Type 0} → S → Booked S
opening s = record { state = s; got = λ q. 0; gone = λ q. 0 }

module _ {S : Type 0} where
  abbrev pub quietly : (S → S) → Booked S → Booked S
  quietly f b = record b { state = f b.state }

  abbrev pub asks : {A : Type 0} → (S → A × S) → Booked S → A × Booked S
  asks f b = let (x, s) = f b.state in (x, record b { state = s })

  abbrev pub book_if : (ℕ → Thing) → Option ℕ × Booked S → Option ℕ × Booked S
  book_if thing (none, b) = (none, b)
  book_if thing (some h, b) = (some h, record b { got = λ q. b.got q + count q (thing h) })

  abbrev pub gets : (ℕ → Thing) → (S → Option ℕ × S) → Booked S → Option ℕ × Booked S
  gets thing f b = book_if thing (asks f b)

  abbrev pub book_up : (dev : ℕ) → Bool × Booked S → Bool × Booked S
  book_up dev (true, b) = (true, record b { got = λ q. b.got q + count q (running dev) })
  book_up dev (false, b) = (false, b)

  abbrev pub gives : (ℕ → Thing) → (ℕ → S → S) → ℕ → Booked S → Booked S
  gives thing f h b = record {
    state = f h b.state;
    got = b.got;
    gone = λ q. b.gone q + count q (thing h);
  }

  abbrev pub booked : Calls S → Calls (Booked S)
  booked calls = record {
    malloc = gets block calls.malloc;
    free = gives block calls.free;
    openlog = quietly calls.openlog;
    closelog = quietly calls.closelog;
    set_mempolicy = λ mask. asks (calls.set_mempolicy mask);
    ufp_mpool_init = gets pool calls.ufp_mpool_init;
    ufp_mpool_destroy = gives pool calls.ufp_mpool_destroy;
    ufp_open = λ i. gets opened (calls.ufp_open i);
    ufp_close = gives opened calls.ufp_close;
    ufp_up = λ dev mpools n b m p r t s. book_up dev (asks (calls.ufp_up dev mpools n b m p r t) s);
    ufp_down = gives running calls.ufp_down;
    sigaddset = λ signal. asks (calls.sigaddset signal);
    mask_signals = asks calls.mask_signals;
    sigwait = quietly calls.sigwait;
    ufp_alloc_buf =
        λ devs size count mpool. gets buffers (calls.ufp_alloc_buf devs size count mpool);
    ufp_release_buf = gives buffers calls.ufp_release_buf;
    ufp_plane_alloc = λ devs buf id core. gets plane (calls.ufp_plane_alloc devs buf id core);
    ufp_plane_release = gives plane calls.ufp_plane_release;
    pthread_create = λ id b.
        let (err, tid, s) = calls.pthread_create id b.state in (err, tid, record b { state = s });
    pthread_setaffinity_np = λ tid core. asks (calls.pthread_setaffinity_np tid core);
    pthread_kill = λ tid. quietly (calls.pthread_kill tid);
    pthread_join = λ tid. quietly (calls.pthread_join tid);
  }
