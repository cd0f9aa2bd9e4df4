-- ===== src/Download/Downloader/Calls/Post.antt =====
-- src/download/downloader.cpp: what holds when a method ends, step by step.
use furrent.Prelude.{
  Result, ok, error, Exec, Exception, returns, throws, undefined, out_of_fuel, ◌≡◌, ◌≢◌, refl,
  subst, Bool, true, false, if◌then◌else◌,
}
use furrent.Download.Downloader.Calls.{DownloaderError, Method, proceed, lift}

abbrev Outcome : Type 0 → Type 0 → Type 0
Outcome A D = Exec (Result A DownloaderError) × D

-- `Q` of the value and of the object behind a valid call, `R` of the object behind any other.
pub data Post {A D : Type 0} (Q : A → D → Type 0) (R : D → Type 0) : Outcome A D → Type 0 where
  valid : (a : A) (s : D) → Q a s → Post Q R (returns (ok a), s)
  failed : (e : DownloaderError) (s : D) → R s → Post Q R (returns (error e), s)
  thrown : (x : Exception) (s : D) → R s → Post Q R (throws x, s)
  broken : (s : D) → R s → Post Q R (undefined, s)
  unfinished : (s : D) → Post Q R (out_of_fuel, s)

pub Post-proceed :
    {A B D : Type 0} {Q : A → D → Type 0} {Q' : B → D → Type 0} {R : D → Type 0} {m : Outcome A D}
    {f : A → Method D B}
    → Post Q R m
    → ((a : A) (s : D) → Q a s → Post Q' R (f a s))
    → Post Q' R (proceed m f)
Post-proceed (valid a s p) q = q a s p
Post-proceed (failed e s p) q = failed e s p
Post-proceed (thrown x s p) q = thrown x s p
Post-proceed (broken s p) q = broken s p
Post-proceed (unfinished s) q = unfinished s

pub Post-mono :
    {A D : Type 0} {Q Q' : A → D → Type 0} {R R' : D → Type 0} {m : Outcome A D}
    → ((a : A) (s : D) → Q a s → Q' a s)
    → ((s : D) → R s → R' s)
    → Post Q R m
    → Post Q' R' m
Post-mono q r (valid a s p) = valid a s (q a s p)
Post-mono q r (failed e s p) = failed e s (r s p)
Post-mono q r (thrown x s p) = thrown x s (r s p)
Post-mono q r (broken s p) = broken s (r s p)
Post-mono q r (unfinished s) = unfinished s

-- A call that is not a method leaves the object alone.
pub Post-lift :
    {A D : Type 0} {R : D → Type 0} (e : Exec A) (s : D)
    → R s
    → Post (λ a t. (e ≡ returns a) × (t ≡ s)) R (lift e s)
Post-lift (returns a) s r = valid a s (refl, refl)
Post-lift (throws x) s r = thrown x s r
Post-lift undefined s r = broken s r
Post-lift out_of_fuel s r = unfinished s

pub Post-after_lift :
    {A B D : Type 0} {Q : B → D → Type 0} {R : D → Type 0} (f : A → Method D B) (e : Exec A) (s : D)
    → R s
    → ((a : A) → e ≡ returns a → Post Q R (f a s))
    → Post Q R (proceed (lift e s) f)
Post-after_lift f (returns a) s r h = h a refl
Post-after_lift f (throws x) s r h = thrown x s r
Post-after_lift f undefined s r h = broken s r
Post-after_lift f out_of_fuel s r h = unfinished s

unfoldable Holds : {A D : Type 0} → (A → D → Type 0) → (D → Type 0) → Outcome A D → Type 0
Holds Q R (returns (ok a), s) = Q a s
Holds Q R (returns (error e), s) = R s
Holds Q R (throws x, s) = R s
Holds Q R (undefined, s) = R s
Holds Q R (out_of_fuel, s) = Unit {0}

Post-Holds :
    {A D : Type 0} {Q : A → D → Type 0} {R : D → Type 0} {m : Outcome A D}
    → Post Q R m
    → Holds Q R m
unfolding Holds
Post-Holds (valid a s p) = p
Post-Holds (failed e s p) = p
Post-Holds (thrown x s p) = p
Post-Holds (broken s p) = p
Post-Holds (unfinished s) = tt

-- The value of a valid call, and the object behind a call that does not return one.
pub Post-value :
    {A D : Type 0} {Q : A → D → Type 0} {R : D → Type 0} {m : Outcome A D} {a : A} {s : D}
    → Post Q R m
    → m ≡ (returns (ok a), s)
    → Q a s
unfolding Holds
Post-value {Q = Q} {R = R} p e = subst (Holds Q R) e (Post-Holds p)

pub Post-error :
    {A D : Type 0} {Q : A → D → Type 0} {R : D → Type 0} {m : Outcome A D} {x : DownloaderError}
    {s : D}
    → Post Q R m
    → m ≡ (returns (error x), s)
    → R s
unfolding Holds
Post-error {Q = Q} {R = R} p e = subst (Holds Q R) e (Post-Holds p)

pub Post-if :
    {A D : Type 0} {Q : A → D → Type 0} {R : D → Type 0} {x y : Outcome A D} (b : Bool)
    → (b ≡ true → Post Q R x)
    → (b ≡ false → Post Q R y)
    → Post Q R (if b then x else y)
Post-if true h k = h refl
Post-if false h k = k refl

-- The object behind any end of the call.
pub Post_end :
    {A D : Type 0} {Q : A → D → Type 0} {R : D → Type 0} {m : Outcome A D}
    → ((a : A) (s : D) → Q a s → R s)
    → m.0 ≢ out_of_fuel
    → Post Q R m
    → R m.1
Post_end q n (valid a s p) = q a s p
Post_end q n (failed e s p) = p
Post_end q n (thrown x s p) = p
Post_end q n (broken s p) = p
Post_end q n (unfinished s) = absurd (n refl)
