-- ===== src/SoundRecorder/Device.antt =====
-- What wav.c takes from outside: ALSA, the memory and the files. Each call is an event of a history,
-- and what it answers may depend on the whole history before it.
use code_samples.Base.{ℕ, Bool, true, false, Option, none, some, List, [], ◌∷◌, Bytes}
use code_samples.Base.Int.{ℤ}

pub data Resource : Type 0 where
  pcm buffer file : Resource

-- The calls of snd_pcm that return an error code.
pub data Call : Type 0 where
  open_pcm : Call
  set_access : Call
  set_format : (bits : ℕ) → Call
  set_channels : ℕ → Call
  set_rate_near : ℕ → Call
  set_period_size_near : ℕ → Call
  hw_params : Call
  get_period_size : Call
  get_period_time : Call
  readi : (frames : ℕ) → Call
  recover : ℤ → Call

-- The newest event stands first in a history.
pub data Event : Type 0 where
  acquire : Resource → Event
  release : Resource → Event
  called : Call → Event
  wrote : Bytes → Event
  drained : Event

abbrev pub History : Type 0
History = List Event

pub record Device : Type 0 where
  pub answers : History → Call → ℤ
  -- The rate and the period size that ALSA stores through the pointers.
  pub rate_near : History → ℕ → ℕ
  pub period_size : History → ℕ
  -- Whether malloc has memory, and whether open gives a descriptor.
  pub has_memory : History → ℤ → Bool
  pub opens : History → Bytes → Bool
  -- The bytes of the buffer that write is given.
  pub audio : History → ℤ → Bytes

abbrev pub Command : Type 0 → Type 0
Command A = History → A × History

abbrev pub pure : {A : Type 0} → A → Command A
pure a h = (a, h)

abbrev pub emit : Event → Command (Unit {0})
emit e h = (tt, e ∷ h)

abbrev pub ask : {A : Type 0} → (History → A) → Command A
ask f h = (f h, h)

module _ {A B : Type 0} where
  infixl 5 ◌>>=◌ ◌>>◌
  abbrev pub ◌>>=◌ : Command A → (A → Command B) → Command B
  m >>= k = λ h. k (m h).0 (m h).1

  abbrev pub ◌>>◌ : Command A → Command B → Command B
  m >> k = λ h. k (m h).1

-- What is open, if nothing was opened twice or given back while it was not open.
pub record Open : Type 0 where
  pub has_pcm : Bool
  pub has_buffer : Bool
  pub has_file : Bool

abbrev pub nothing : Open
nothing = record { has_pcm = false; has_buffer = false; has_file = false }

abbrev pub has : Resource → Open → Bool
has pcm o = o.has_pcm
has buffer o = o.has_buffer
has file o = o.has_file

abbrev pub mark : Resource → Bool → Open → Open
mark pcm b o = record o { has_pcm = b }
mark buffer b o = record o { has_buffer = b }
mark file b o = record o { has_file = b }

abbrev pub change : Bool → Resource → Bool → Open → Option Open
change true r b o = none
change false r b o = some (mark r b o)

abbrev pub after_event : Event → Open → Option Open
after_event (acquire pcm) o = change o.has_pcm pcm true o
after_event (acquire buffer) o = change o.has_buffer buffer true o
after_event (acquire file) o = change o.has_file file true o
after_event (release pcm) o = elim o.has_pcm [ true ↦ some (mark pcm false o) | false ↦ none ]
after_event (release buffer) o = elim o.has_buffer [
  | true ↦ some (mark buffer false o)
  | false ↦ none
]
after_event (release file) o = elim o.has_file [ true ↦ some (mark file false o) | false ↦ none ]
after_event (called c) o = some o
after_event (wrote bytes) o = some o
after_event drained o = some o

unfoldable pub opened : History → Option Open
opened [] = some nothing
opened (e ∷ h) = elim (opened h) [ none ↦ none | some o ↦ after_event e o ]
