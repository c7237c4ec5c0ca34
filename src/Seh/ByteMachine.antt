-- ===== src/Seh/ByteMachine.antt =====
-- A guest with byte memory whose functions all return 1, for runs of the dispatchers. The head of the
-- registration chain is the first field of a TEB in this memory.
use mathlib.Core.Path.{subst}
use speakeasy.Base.{
  ℕ, zero, suc, ◌+◌, ◌≤◌, Option, none, some, List, [], ◌∷◌, ◌≡◌, inl, inr, refl, ◌<◌, ◌^◌, ap, ◌∙◌,
  length, arith,
}
use speakeasy.Base.Int.{ℤ, pos, negsuc}
use speakeasy.Unwind.{from_bytes}
use speakeasy.Unwind.Frame.Prolog.{
  Bytes, load, store, store_other, load-store, to_bytes, length-to_bytes, from_bytes-to_bytes,
}
use speakeasy.Seh.{Guest, World}

pub record Machine : Type 0 where
  pub memory : Bytes

-- the address of the TEB
abbrev pub teb : ℕ
teb = 0x7FFDE000

-- ExceptionList
unfoldable pub head_of : Machine → ℕ
head_of s = from_bytes (load s.memory teb 4)

unfoldable pub set_head : ℕ → Machine → Machine
set_head next s = record { memory = store s.memory teb (to_bytes 4 next) }

abbrev pub machine_read : Machine → ℤ → ℕ → Option (List ℕ)
machine_read s (pos a) n = some (load s.memory a n)
machine_read s (negsuc a) n = none

abbrev pub machine_write : Machine → ℤ → List ℕ → Option Machine
machine_write s (pos a) bytes = some (record { memory = store s.memory a bytes })
machine_write s (negsuc a) bytes = none

-- a guest of contexts that are one number
abbrev pub machine_guest :
    {Context : Type 0}
    → ℕ
    → Context
    → (Context → List ℕ)
    → (List ℕ → Context)
    → (Context → ℕ)
    → Guest Context
machine_guest ptr_size ctx encode decode ip = record {
  State = Machine;
  read = machine_read;
  write = machine_write;
  call = λ c s. some (1, s);
  ptr_size = ptr_size;
  thread_context = λ s. ctx;
  caller_context = λ s. ctx;
  encode_context = encode;
  decode_context = decode;
  context_size = 8;
  instruction_pointer = ip;
  reg_read = λ s r. 0;
  veh_handlers = λ s. 0x9000 ∷ [];
  unhandled_exception_handler = λ s. 0x9100;
  exception_list = head_of;
  set_exception_list = set_head;
}

abbrev pub world : Machine → World Machine
world s = record {
  guest = s;
  stack_pointer = 0x800;
  handler = record { scratch = 0; context = 0 };
  calls = [];
  recorded = [];
  resumed = [];
}

pub same_handlers :
    (s s' : Machine) (address : ℤ) (bytes : List ℕ)
    → machine_write s address bytes ≡ some s'
    → ◌≡◌ {A = List ℕ} (0x9000 ∷ []) (0x9000 ∷ [])
same_handlers s s' address bytes eq = refl

-- a write keeps the bytes above it
pub load_above :
    (m : Bytes) (a : ℕ) (bytes : List ℕ) (x n : ℕ)
    → a + length bytes ≤ x
    → load (store m a bytes) x n ≡ load m x n
unfolding load
load_above m a bytes x zero le = refl
load_above m a bytes x (suc n) le =
    ap (λ b. b ∷ load (store m a bytes) (x + 1) n) (store_other m a bytes x (inr le))
    ∙ ap (λ l. m x ∷ l) (load_above m a bytes (x + 1) n (omega arith))

-- a write keeps the bytes below it
pub load_below :
    (m : Bytes) (a : ℕ) (bytes : List ℕ) (x n : ℕ)
    → x + n ≤ a
    → load (store m a bytes) x n ≡ load m x n
unfolding load
load_below m a bytes x zero le = refl
load_below m a bytes x (suc n) le =
    ap (λ b. b ∷ load (store m a bytes) (x + 1) n) (store_other m a bytes x (inl (omega arith)))
    ∙ ap (λ l. m x ∷ l) (load_below m a bytes (x + 1) n (omega arith))

-- a write below the TEB keeps the head of the chain
pub same_head :
    (s s' : Machine) (address : ℕ) (bytes : List ℕ)
    → address + length bytes ≤ 0x800
    → machine_write s (pos address) bytes ≡ some s'
    → head_of s' ≡ head_of s
unfolding head_of
same_head s s' address bytes below eq =
    subst (λ t. from_bytes (load t.memory teb 4) ≡ from_bytes (load s.memory teb 4))
      (ap (λ o. state_of o) eq)
      (ap (λ l. from_bytes l) (load_above s.memory address bytes teb 4 (omega arith)))
  where
    state_of : Option Machine → Machine
    state_of none = s
    state_of (some t) = t

-- the head that is set is read back
pub head_of-set_head : (next : ℕ) (s : Machine) → next < 2 ^ 32 → head_of (set_head next s) ≡ next
unfolding head_of set_head
head_of-set_head next s small =
    let width : length (to_bytes 4 next) ≡ 4 = length-to_bytes 4 next in
    let stored : load (store s.memory teb (to_bytes 4 next)) teb (length (to_bytes 4 next))
        ≡ to_bytes 4 next =
      load-store s.memory (store s.memory teb (to_bytes 4 next)) teb (to_bytes 4 next)
        (λ x p q. refl) in
    let bytes : load (store s.memory teb (to_bytes 4 next)) teb 4 ≡ to_bytes 4 next =
      subst (λ n. load (store s.memory teb (to_bytes 4 next)) teb n ≡ to_bytes 4 next) width
        stored in
    rw bytes (from_bytes-to_bytes 4 next (omega arith))
