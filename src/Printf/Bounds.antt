-- ===== src/Printf/Bounds.antt =====
-- lib/printf.c: the functions that write to a stream, each as the text that it writes.
use kvm_unit_tests.Base.{
  ℕ, ◌-◌, ◌<◌, min, ◌≡◌, refl, ap, ◌∙◌, sym, Bool, true, false, if◌then◌else◌, List, [], ◌∷◌, ◌++◌,
  arith, length, drop, length-drop, Result, ok, fault, aborted, ◌>>=◌,
}
use kvm_unit_tests.Printf.{Pstream, addchar}
use kvm_unit_tests.Printf.Stream.{emit, stream, emit_lem, emit-append, bind_assoc}

-- On a stream with room, `k` writes the text `t`, where that is a text, and ends as `t` does.
abbrev pub Emits : (Pstream → Result Pstream) → Result (List ℕ) → Type 0
Emits k t =
    (w b : List ℕ) (r a : ℕ)
    → r < length b
    → k (stream w b r a) ≡ (t >>= λ x. emit x (stream w b r a))

-- The same for a `k` that has a value too.
abbrev pub Gives : {B : Type 0} → (Pstream → Result (Pstream × B)) → Result (List ℕ × B) → Type 0
Gives k t =
    (w b : List ℕ) (r a : ℕ)
    → r < length b
    → k (stream w b r a) ≡ (t >>= λ x. emit x.0 (stream w b r a) >>= λ q. ok (q, x.1))

room_after :
    (r : ℕ) (x b : List ℕ) → r < length b → (r - length x) < length (drop (min r (length x)) b)
room_after r x b h = omega (arith, length-drop (min r (length x)) b)

-- After a text that fits, the stream has room again.
emit-then :
    {C : Type 0} (x w b : List ℕ) (r a : ℕ) (f g : Pstream → Result C)
    → r < length b
    → ((w' b' : List ℕ) (r' a' : ℕ)
        → r' < length b'
        → f (stream w' b' r' a') ≡ g (stream w' b' r' a'))
    → (emit x (stream w b r a) >>= f) ≡ (emit x (stream w b r a) >>= g)
emit-then x w b r a f g h same =
    let e = emit_lem x w b r a h in
    ap (λ q. q >>= f) e ∙ same _ _ _ _ (room_after r x b h) ∙ sym (ap (λ q. q >>= g) e)

emit-fault :
    {C : Type 0} (x w b : List ℕ) (r a : ℕ) (t : Result C)
    → r < length b
    → (emit x (stream w b r a) >>= λ q. t) ≡ t
emit-fault x w b r a t h = ap (λ q. q >>= λ _. t) (emit_lem x w b r a h)

join : (x : List ℕ) (u : Result (List ℕ)) → Result (List ℕ)
join x u = do y ← u; ok (x ++ y)

join_lem :
    (x w b : List ℕ) (r a : ℕ) (u : Result (List ℕ))
    → r < length b
    → (emit x (stream w b r a) >>= λ q. u >>= λ y. emit y q)
      ≡ ((u >>= λ y. ok (x ++ y)) >>= λ z. emit z (stream w b r a))
join_lem x w b r a (ok y) h = sym (emit-append x y (stream w b r a))
join_lem x w b r a fault h = emit-fault x w b r a fault h
join_lem x w b r a aborted h = emit-fault x w b r a aborted h

pub Gives-bind :
    {B : Type 0} (k : Pstream → Result (Pstream × B)) (f : B → Pstream → Result Pstream)
    (t : Result (List ℕ × B)) (u : B → Result (List ℕ))
    → Gives k t
    → ((v : B) → Emits (f v) (u v))
    → Emits (λ p. k p >>= λ x. f x.1 x.0) (t >>= λ x. u x.1 >>= λ y. ok (x.0 ++ y))
Gives-bind k f (ok x) u g e w b r a h =
    ap (λ q. q >>= λ x. f x.1 x.0) (g w b r a h)
    ∙ bind_assoc (emit x.0 (stream w b r a)) (λ q. ok (q, x.1)) (λ y. f y.1 y.0)
    ∙ emit-then x.0 w b r a (f x.1) (λ q. u x.1 >>= λ y. emit y q) h (e x.1)
    ∙ join_lem x.0 w b r a (u x.1) h
Gives-bind k f fault u g e w b r a h = ap (λ q. q >>= λ x. f x.1 x.0) (g w b r a h)
Gives-bind k f aborted u g e w b r a h = ap (λ q. q >>= λ x. f x.1 x.0) (g w b r a h)

pub Emits-bind :
    (k f : Pstream → Result Pstream) (t u : Result (List ℕ))
    → Emits k t
    → Emits f u
    → Emits (λ p. k p >>= f) (t >>= λ x. u >>= λ y. ok (x ++ y))
Emits-bind k f (ok x) u g e w b r a h =
    ap (λ q. q >>= f) (g w b r a h)
    ∙ emit-then x w b r a f (λ q. u >>= λ y. emit y q) h e
    ∙ join_lem x w b r a u h
Emits-bind k f fault u g e w b r a h = ap (λ q. q >>= f) (g w b r a h)
Emits-bind k f aborted u g e w b r a h = ap (λ q. q >>= f) (g w b r a h)

-- A function that writes one text, whatever the stream.
pub data Writer (k : Pstream → Result Pstream) : Type 0 where
  writer : (t : Result (List ℕ)) → Emits k t → Writer k

pub data Giver {B : Type 0} (k : Pstream → Result (Pstream × B)) : Type 0 where
  giver : (t : Result (List ℕ × B)) → Gives k t → Giver k

abbrev pub what : {k : Pstream → Result Pstream} → Writer k → Result (List ℕ)
what (writer t e) = t

pub what_lem : {k : Pstream → Result Pstream} (m : Writer k) → Emits k (what m)
what_lem (writer t e) = e

pub Writer-none : Writer (λ p. ok p)
unfolding emit
Writer-none = writer (ok []) (λ w b r a h. refl)

pub Writer-fault : Writer (λ p. fault)
Writer-fault = writer fault (λ w b r a h. refl)

pub Writer-emit : (x : List ℕ) → Writer (emit x)
Writer-emit x = writer (ok x) (λ w b r a h. refl)

bind_ok : {A : Type 0} (x : Result A) → (x >>= λ a. ok a) ≡ x
bind_ok (ok a) = refl
bind_ok fault = refl
bind_ok aborted = refl

pub Writer-addchar : (c : ℕ) → Writer (addchar c)
unfolding emit
Writer-addchar c = writer (ok (c ∷ [])) (λ w b r a h. sym (bind_ok (addchar c (stream w b r a))))

pub Writer-bind : {k f : Pstream → Result Pstream} → Writer k → Writer f → Writer (λ p. k p >>= f)
Writer-bind {k} {f} (writer t e) (writer u g) = writer _ (Emits-bind k f t u e g)

pub Giver-bind :
    {B : Type 0} {k : Pstream → Result (Pstream × B)} (f : B → Pstream → Result Pstream)
    → Giver k
    → ((v : B) → Writer (f v))
    → Writer (λ p. k p >>= λ x. f x.1 x.0)
Giver-bind {k = k} f (giver t e) n =
    writer _ (Gives-bind k f t (λ v. what (n v)) e (λ v. what_lem (n v)))

pub Writer-after :
    {A : Type 0} (f : A → Pstream → Result Pstream) (x : Result A)
    → ((v : A) → Writer (f v))
    → Writer (λ p. x >>= λ v. f v p)
Writer-after f (ok v) n = n v
Writer-after f fault n = writer fault (λ w b r a h. refl)
Writer-after f aborted n = writer aborted (λ w b r a h. refl)

pub Writer-if :
    {k f : Pstream → Result Pstream} (c : Bool)
    → Writer k
    → Writer f
    → Writer (λ p. if c then k p else f p)
Writer-if true m n = m
Writer-if false m n = n

pub Giver-after :
    {A B : Type 0} (f : A → Pstream → Result (Pstream × B)) (x : Result A)
    → ((v : A) → Giver (f v))
    → Giver (λ p. x >>= λ v. f v p)
Giver-after f (ok v) n = n v
Giver-after f fault n = giver fault (λ w b r a h. refl)
Giver-after f aborted n = giver aborted (λ w b r a h. refl)

pub Giver-if :
    {B : Type 0} {k f : Pstream → Result (Pstream × B)} (c : Bool)
    → Giver k
    → Giver f
    → Giver (λ p. if c then k p else f p)
Giver-if true m n = m
Giver-if false m n = n

pub Giver-value :
    {B : Type 0} {k : Pstream → Result Pstream} (v : B)
    → Writer k
    → Giver {B = B} (λ p. k p >>= λ q. ok (q, v))
Giver-value v (writer (ok x) e) =
    giver (ok (x, v)) (λ w b r a h. ap (λ y. y >>= λ q. ok (q, v)) (e w b r a h))
Giver-value v (writer fault e) =
    giver fault (λ w b r a h. ap (λ y. y >>= λ q. ok (q, v)) (e w b r a h))
Giver-value v (writer aborted e) =
    giver aborted (λ w b r a h. ap (λ y. y >>= λ q. ok (q, v)) (e w b r a h))

pub Giver-assoc :
    {B : Type 0} (k f : Pstream → Result Pstream) (g : Pstream → Result (Pstream × B))
    → Giver (λ p. k p >>= f >>= g)
    → Giver (λ p. k p >>= λ q. f q >>= g)
Giver-assoc k f g (giver t e) =
    giver t (λ w b r a h. sym (bind_assoc (k (stream w b r a)) f g) ∙ e w b r a h)
