-- ===== src/Startup.antt =====
-- The start of zprd: init_all and setup_server_fd in src/main.cxx, tun_alloc in src/crw.c. A
-- program is the tree of the calls of the system that it makes; what comes next depends on the
-- answers.
pub mod Runs
pub mod Files
pub mod Privileges
pub mod Init
pub mod Main
pub mod Epoll
pub mod Reads
pub mod Hooks
pub mod HookRuns
pub mod Outcome
pub mod Base
pub mod Balance
pub mod Rooted
pub mod LocalRoutes
pub mod CallKinds
pub mod Commands
pub mod Order
pub mod Refusal
pub mod Descriptors
use zprd.Prelude.{ℕ, zero, suc, List, [], ◌∷◌, Option, none, some}
use zprd.Oafa.{SockAddr}

-- A text is the list of its bytes; a file is the number of its descriptor, `none` for -1.
pub data Call : Type 0 where
  system : List ℕ → Call
  open_file : List ℕ → Call
  dup2 : ℕ → ℕ → Call
  close : Option ℕ → Call
  read_file : List ℕ → Call
  tun_set_iff : ℕ → List ℕ → Call
  getifaddrs freeifaddrs : Call
  getpwnam getgrnam : List ℕ → Call
  setgroups : ℕ → Call
  setregid setreuid : ℕ → ℕ → Call
  chdir : List ℕ → Call
  time : Call
  socket : ℕ → Call
  set_reuse_addr : ℕ → Call
  bind : ℕ → SockAddr → Call
  start_sender : Call
  ignore_signal handle_signal : ℕ → Call
  epoll_create : Call
  epoll_add : ℕ → ℕ → Call

-- `failed` is the result false of init_all, and an exception.
pub data Program {ℓ} (A : Type ℓ) : Type ℓ where
  done : A → Program A
  failed : Program A
  call : Call → (Option ℕ → Program A) → Program A

infixl 5 ◌>>=◌ ◌>>◌
unfoldable pub ◌>>=◌ {ℓ κ} : {A : Type ℓ} {B : Type κ} → Program A → (A → Program B) → Program B
done a >>= f = f a
failed >>= f = failed
call c k >>= f = call c (λ r. k r >>= f)

abbrev pub ◌>>◌ {ℓ κ} : {A : Type ℓ} {B : Type κ} → Program A → Program B → Program B
m >> k = m >>= λ _. k

-- A call whose answer is looked at later.
abbrev pub ask : Call → Program (Option ℕ)
ask c = call c done

abbrev pub of_option {ℓ} : {A : Type ℓ} → Option A → Program A
of_option none = failed
of_option (some a) = done a

-- A call that must not fail, and one that must answer 0.
abbrev pub need : Call → Program ℕ
need c = call c of_option

abbrev pub zero_only : Option ℕ → Program ℕ
zero_only none = failed
zero_only (some zero) = done zero
zero_only (some (suc n)) = failed

abbrev pub need_zero : Call → Program ℕ
need_zero c = call c zero_only

-- What was called, with its answer.
abbrev pub Event : Type 0
Event = Call × Option ℕ

-- The program with these answers of the system; when they run out, all calls fail.
unfoldable pub execute {ℓ} : {A : Type ℓ} → List (Option ℕ) → Program A → List Event × Option A
execute answers (done a) = ([], some a)
execute answers failed = ([], none)
execute [] (call c k) = let (events, a) = execute [] (k none) in ((c, none) ∷ events, a)
execute (r ∷ answers) (call c k) = let (events, a) = execute answers (k r) in ((c, r) ∷ events, a)
