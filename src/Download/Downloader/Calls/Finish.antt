-- ===== src/Download/Downloader/Calls/Finish.antt =====
-- src/download/downloader.cpp: methods whose loops have fuel enough.
use furrent.Prelude.{
  Result, ok, error, Exec, Exception, returns, throws, undefined, out_of_fuel, ◌≡◌, ◌≢◌, refl,
  subst, Bool, true, false, if◌then◌else◌,
}
use furrent.Download.Downloader.Calls.{DownloaderError, Method, proceed, lift}

abbrev Outcome : Type 0 → Type 0 → Type 0
Outcome A D = Exec (Result A DownloaderError) × D

-- The call comes to its end, and `Q` holds of the value and of the object behind a valid one.
pub data Finishes {A D : Type 0} (Q : A → D → Type 0) : Outcome A D → Type 0 where
  valid : (a : A) (s : D) → Q a s → Finishes Q (returns (ok a), s)
  failed : (e : DownloaderError) (s : D) → Finishes Q (returns (error e), s)
  thrown : (x : Exception) (s : D) → Finishes Q (throws x, s)
  broken : (s : D) → Finishes Q (undefined, s)

pub Finishes-proceed :
    {A B D : Type 0} {Q : A → D → Type 0} {Q' : B → D → Type 0} {m : Outcome A D}
    {f : A → Method D B}
    → Finishes Q m
    → ((a : A) (s : D) → Q a s → Finishes Q' (f a s))
    → Finishes Q' (proceed m f)
Finishes-proceed (valid a s p) q = q a s p
Finishes-proceed (failed e s) q = failed e s
Finishes-proceed (thrown x s) q = thrown x s
Finishes-proceed (broken s) q = broken s

pub Finishes-mono :
    {A D : Type 0} {Q Q' : A → D → Type 0} {m : Outcome A D}
    → ((a : A) (s : D) → Q a s → Q' a s)
    → Finishes Q m
    → Finishes Q' m
Finishes-mono q (valid a s p) = valid a s (q a s p)
Finishes-mono q (failed e s) = failed e s
Finishes-mono q (thrown x s) = thrown x s
Finishes-mono q (broken s) = broken s

pub data IsOver {A : Type 0} : Exec A → Type 0 where
  returned : (a : A) → IsOver (returns a)
  threw : (x : Exception) → IsOver (throws x)
  broke : IsOver undefined

unfoldable HasEnd : {A : Type 0} → Exec A → Type 0
HasEnd out_of_fuel = ⊥
HasEnd _ = Unit {0}

IsOver-HasEnd : {A : Type 0} {e : Exec A} → IsOver e → HasEnd e
unfolding HasEnd
IsOver-HasEnd (returned a) = tt
IsOver-HasEnd (threw x) = tt
IsOver-HasEnd broke = tt

pub not-IsOver : {A : Type 0} → ¬ IsOver {A = A} out_of_fuel
unfolding HasEnd
not-IsOver o = IsOver-HasEnd o

pub Finishes-after_lift :
    {A B D : Type 0} {Q : B → D → Type 0} (f : A → Method D B) (e : Exec A) (s : D)
    → IsOver e
    → ((a : A) → Finishes Q (f a s))
    → Finishes Q (proceed (lift e s) f)
Finishes-after_lift f (returns a) s o h = h a
Finishes-after_lift f (throws x) s o h = thrown x s
Finishes-after_lift f undefined s o h = broken s
Finishes-after_lift f out_of_fuel s o h = absurd (not-IsOver o)

pub Finishes-not_out :
    {A D : Type 0} {Q : A → D → Type 0} {m : Outcome A D} → Finishes Q m → m.0 ≢ out_of_fuel
unfolding HasEnd
Finishes-not_out (valid a s p) e = subst HasEnd e tt
Finishes-not_out (failed x s) e = subst HasEnd e tt
Finishes-not_out (thrown x s) e = subst HasEnd e tt
Finishes-not_out (broken s) e = subst HasEnd e tt

pub Finishes-if :
    {A D : Type 0} {Q : A → D → Type 0} {x y : Outcome A D} (b : Bool)
    → (b ≡ true → Finishes Q x)
    → (b ≡ false → Finishes Q y)
    → Finishes Q (if b then x else y)
Finishes-if true h k = h refl
Finishes-if false h k = k refl
