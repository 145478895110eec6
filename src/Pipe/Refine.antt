-- ===== src/Pipe/Refine.antt =====
-- A valid ring of os/src/fs/pipe.rs behaves as the queue of the bytes in it.
use os.Base.{
  ℕ, zero, suc, ◌+◌, ◌/◌, ◌%◌, ◌<◌, ◌≡◌, ◌≢◌, refl, ap, ◌∙◌, List, [], ◌∷◌, ◌++◌, arith, length,
  get_or, set, length-set, get_or-set_self, get_or-set_ne, ℕ_discrete, replicate, length-replicate,
}
use mathlib.Core.Path.{ap₂}
use os.Pipe.Ring.{
  new, pipe_buf_page_size, pipe_buf_pages, ring_buffer_size, RingBufferStatus, normal,
  PipeRingBuffer, get_byte, set_byte, write_byte, read_byte, available_read, available_write,
}

abbrev pub AllPages : List (List ℕ) → Type 0
AllPages [] = Unit {0}
AllPages (f ∷ fs) = (length f ≡ pipe_buf_page_size) × AllPages fs

-- The status tells the full ring from the empty one, where `head` and `tail` meet.
abbrev pub Agrees : RingBufferStatus → ℕ → ℕ → Type 0
Agrees normal head tail = head ≢ tail
Agrees _ head tail = head ≡ tail

pub record IsValid (r : PipeRingBuffer) : Type 0 where
  pub pages : AllPages r.frames
  pub sixteen : length r.frames ≡ pipe_buf_pages
  pub head_in : r.head < ring_buffer_size
  pub tail_in : r.tail < ring_buffer_size
  pub agrees : Agrees r.status r.head r.tail

AllPages-replicate : (n : ℕ) → AllPages (replicate n (replicate pipe_buf_page_size 0))
unfolding replicate
AllPages-replicate zero = tt
AllPages-replicate (suc n) = (length-replicate {A = ℕ} 4096 0, AllPages-replicate n)

-- A new ring is valid.
pub new-IsValid : IsValid new
unfolding new
new-IsValid = record {
  pages = AllPages-replicate 16;
  sixteen = length-replicate {A = List ℕ} 16 (replicate pipe_buf_page_size 0);
  head_in = omega arith;
  tail_in = omega arith;
  agrees = refl;
}

AllPages-get :
    (fs : List (List ℕ)) (i : ℕ)
    → AllPages fs
    → i < length fs
    → length (get_or fs i []) ≡ pipe_buf_page_size
AllPages-get [] i h k = absurd (omega arith)
AllPages-get (f ∷ fs) zero h k = h.0
AllPages-get (f ∷ fs) (suc i) h k = AllPages-get fs i h.1 (omega arith)

AllPages-set :
    (fs : List (List ℕ)) (i : ℕ) (f : List ℕ)
    → AllPages fs
    → length f ≡ pipe_buf_page_size
    → AllPages (set fs i f)
AllPages-set [] i f h k = tt
AllPages-set (g ∷ fs) zero f h k = (k, h.1)
AllPages-set (g ∷ fs) (suc i) f h k = (h.0, AllPages-set fs i f h.1 k)

module _ (fs : List (List ℕ)) (i b : ℕ) (h : AllPages fs) (k : length fs ≡ pipe_buf_pages)
    (l : i < ring_buffer_size) where
  page_in : i / pipe_buf_page_size < length fs
  page_in = omega arith

  page_length : length (get_or fs (i / pipe_buf_page_size) []) ≡ pipe_buf_page_size
  page_length = AllPages-get fs (i / pipe_buf_page_size) h page_in

  set_byte-AllPages : AllPages (set_byte fs i b)
  unfolding set_byte
  set_byte-AllPages =
      AllPages-set fs (i / pipe_buf_page_size) _ h (
        length-set (get_or fs (i / pipe_buf_page_size) []) (i % pipe_buf_page_size) b ∙ page_length)

  length-set_byte : length (set_byte fs i b) ≡ length fs
  unfolding set_byte
  length-set_byte = length-set fs (i / pipe_buf_page_size) _

  get_byte-set_byte_self : get_byte (set_byte fs i b) i ≡ b
  unfolding get_byte set_byte
  get_byte-set_byte_self =
      rw (get_or-set_self fs (i / 4096) (set (get_or fs (i / 4096) []) (i % 4096) b) [] page_in)
        (get_or-set_self (get_or fs (i / 4096) []) (i % 4096) b 0 (omega (arith, page_length)))

  get_byte-set_byte_ne : (j : ℕ) → i ≢ j → get_byte (set_byte fs i b) j ≡ get_byte fs j
  unfolding get_byte set_byte
  get_byte-set_byte_ne j ne = elim (ℕ_discrete (i / 4096) (j / 4096)) [
    | yes e ↦
        rw
          (
            ← e,
            get_or-set_self fs (i / 4096) (set (get_or fs (i / 4096) []) (i % 4096) b) [] page_in,
          )
          (get_or-set_ne (get_or fs (i / 4096) []) (i % 4096) (j % 4096) b 0
            (λ r. ne (omega arith)))
    | no d ↦
        rw
          (get_or-set_ne fs (i / 4096) (j / 4096) (set (get_or fs (i / 4096) []) (i % 4096) b) [] d)
  ]

-- The `n` bytes from `head` on, going round at the end of the ring.
unfoldable pub window : List (List ℕ) → ℕ → ℕ → List ℕ
window fs head zero = []
window fs head (suc n) = get_byte fs head ∷ window fs ((head + 1) % ring_buffer_size) n

-- The bytes in the ring, oldest first.
abbrev pub contents : PipeRingBuffer → List ℕ
contents r = window r.frames r.head (available_read r)

length-window : (fs : List (List ℕ)) (head n : ℕ) → length (window fs head n) ≡ n
unfolding window
length-window fs head zero = refl
length-window fs head (suc n) = ap suc (length-window fs ((head + 1) % ring_buffer_size) n)

-- A write just past the window extends it by the byte written.
window-set_byte :
    (fs : List (List ℕ)) (b n head i : ℕ)
    → AllPages fs
    → length fs ≡ pipe_buf_pages
    → head < ring_buffer_size
    → n < ring_buffer_size
    → i ≡ (head + n) % ring_buffer_size
    → window (set_byte fs i b) head (suc n) ≡ window fs head n ++ (b ∷ [])
unfolding window
window-set_byte fs b zero head i p k h l e =
    let here : i ≡ head = omega arith in
    rw here (ap (λ x. x ∷ []) (get_byte-set_byte_self fs head b p k h))
window-set_byte fs b (suc n) head i p k h l e =
    let inside : i < ring_buffer_size = omega arith in
    ap₂ ◌∷◌ (get_byte-set_byte_ne fs i b p k inside head (λ q. absurd (omega arith))) (
      window-set_byte fs b n ((head + 1) % ring_buffer_size) i p k (omega arith) (omega arith)
        (omega arith))

pub available_read-length : (r : PipeRingBuffer) → length (contents r) ≡ available_read r
available_read-length r = length-window r.frames r.head (available_read r)

-- Every byte of a valid ring is either readable or writable.
pub available-sum :
    (r : PipeRingBuffer) → IsValid r → available_read r + available_write r ≡ ring_buffer_size
unfolding available_read available_write
available-sum r v = ground (arith, v.agrees)

pub write_byte-IsValid : (r : PipeRingBuffer) (b : ℕ) → IsValid r → IsValid (write_byte r b)
unfolding write_byte
write_byte-IsValid r b v = record {
  pages = set_byte-AllPages r.frames r.tail b v.pages v.sixteen v.tail_in;
  sixteen = length-set_byte r.frames r.tail b v.pages v.sixteen v.tail_in ∙ v.sixteen;
  head_in = v.head_in;
  tail_in = omega arith;
  agrees = ground arith;
}

pub read_byte-IsValid : (r : PipeRingBuffer) → IsValid r → IsValid (read_byte r).1
unfolding read_byte
read_byte-IsValid r v = record {
  pages = v.pages;
  sixteen = v.sixteen;
  head_in = omega arith;
  tail_in = v.tail_in;
  agrees = ground arith;
}

available_read-write_byte :
    (r : PipeRingBuffer) (b : ℕ)
    → IsValid r
    → 0 < available_write r
    → available_read (write_byte r b) ≡ suc (available_read r)
unfolding write_byte available_read available_write
available_read-write_byte r b v h = ground (arith, v.agrees)

-- Writing a byte into a ring that is not full puts it at the end of the queue.
pub write_byte_refines :
    (r : PipeRingBuffer) (b : ℕ)
    → IsValid r
    → 0 < available_write r
    → contents (write_byte r b) ≡ contents r ++ (b ∷ [])
write_byte_refines r b v h = rw (available_read-write_byte r b v h) (unfold write_byte in extended)
  where
    at_tail : r.tail ≡ (r.head + available_read r) % ring_buffer_size
    at_tail = unfold available_read available_write in ground (arith, v.agrees)

    extended :
        window (set_byte r.frames r.tail b) r.head (suc (available_read r)) ≡ contents r ++ (b ∷ [])
    extended =
        window-set_byte r.frames b (available_read r) r.head r.tail v.pages v.sixteen v.head_in
          (omega (arith, available-sum r v)) at_tail

available_read-read_byte :
    (r : PipeRingBuffer)
    → IsValid r
    → 0 < available_read r
    → available_read r ≡ suc (available_read (read_byte r).1)
unfolding read_byte available_read
available_read-read_byte r v h = ground (arith, v.agrees)

-- Reading a byte from a ring that is not empty takes it off the front of the queue.
pub read_byte_refines :
    (r : PipeRingBuffer)
    → IsValid r
    → 0 < available_read r
    → contents r ≡ (read_byte r).0 ∷ contents (read_byte r).1
unfolding window read_byte
read_byte_refines r v h = ap (window r.frames r.head) (available_read-read_byte r v h)
