-- ===== src/Tx/Effect.antt =====
-- Code that runs against a disk and may fail or be cut off at every write. Each durable effect
-- takes the next fate of the world: it is done, it raises with or without having taken place, or
-- the process ends before or after it.
use proxy_gateway_plus.Prelude.{String, Bool, true, false, Option, List, [], ◌∷◌}
use proxy_gateway_plus.Tx.{TxState, Target, Watch, Mode, Image, Disk, Digest}
use proxy_gateway_plus.Tx.Action.{Action, Want}

pub data Fate : Type 0 where
  done raised_before raised_after cut_before cut_after : Fate

-- The exceptions of the module.
pub data Exn : Type 0 where
  busy refused tx_error os_error apply_failed : Exn

-- The fields of a `Tx` object that decide what it does.
pub record Tx : Type 0 where
  pub state : TxState
  pub mode : Mode
  pub targets : List Target
  pub watches : List Watch
  pub read_digests : List (String × Option Digest)
  pub actions : List Action
  pub guards : List (String × Want)
  pub intended : List (String × Option Digest)
  pub images : List (String × Image)

pub record World : Type 0 where
  pub tx : Tx
  pub disk : Disk
  pub fates : List Fate

pub data Outcome (A : Type 0) : Type 0 where
  returned : A → Outcome A
  raised : Exn → Outcome A
  cut_off : Outcome A

abbrev pub Run : Type 0 → Type 0
Run A = World → Outcome A × World

abbrev pub resume : {A B : Type 0} → (A → Run B) → Outcome A → Run B
resume f (returned a) v = f a v
resume f (raised e) v = (raised e, v)
resume f cut_off v = (cut_off, v)

infixl 5 ◌>>=◌
unfoldable pub ◌>>=◌ : {A B : Type 0} → Run A → (A → Run B) → Run B
◌>>=◌ m f w = let (o, v) = m w in resume f o v

infixl 5 ◌>>◌
abbrev pub ◌>>◌ : {A : Type 0} → Run (Unit {0}) → Run A → Run A
m >> n = m >>= λ _. n

unfoldable pub pure : {A : Type 0} → A → Run A
pure a w = (returned a, w)

unfoldable pub raise : {A : Type 0} → Exn → Run A
raise e w = (raised e, w)

abbrev pub handle : {A : Type 0} → (Exn → Run A) → Outcome A → Run A
handle h (returned a) v = (returned a, v)
handle h (raised e) v = h e v
handle h cut_off v = (cut_off, v)

-- `try: m` with a handler for every exception.
unfoldable pub catch : {A : Type 0} → Run A → (Exn → Run A) → Run A
catch m h w = let (o, v) = m w in handle h o v

unfoldable pub gets : {A : Type 0} → (World → A) → Run A
gets f w = (returned (f w), w)

-- A change of the `Tx` object, which is not durable.
unfoldable pub modify : (Tx → Tx) → Run (Unit {0})
modify f w = (returned tt, record w { tx = f w.tx })

unfoldable pub require : Bool → Exn → Run (Unit {0})
require true e w = (returned tt, w)
require false e w = (raised e, w)

abbrev pub fate_of : Fate → (Disk → Disk) → World → Outcome (Unit {0}) × World
fate_of done f w = (returned tt, record w { disk = f w.disk })
fate_of raised_before f w = (raised os_error, w)
fate_of raised_after f w = (raised os_error, record w { disk = f w.disk })
fate_of cut_before f w = (cut_off, w)
fate_of cut_after f w = (cut_off, record w { disk = f w.disk })

-- With no fates left, effects are done.
unfoldable pub durable_at : List Fate → (Disk → Disk) → World → Outcome (Unit {0}) × World
durable_at [] f w = (returned tt, record w { disk = f w.disk })
durable_at (x ∷ rest) f w = fate_of x f (record w { fates = rest })

-- A durable effect, such as one atomic replacement of a file.
unfoldable pub durable : (Disk → Disk) → Run (Unit {0})
durable f w = durable_at w.fates f w
