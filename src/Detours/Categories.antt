-- ===== src/Detours/Categories.antt =====
-- `g_pDetours` as a map: what is found after `put`.
use gmod_queue.Base.{ℕ, ◌≡◌, ◌≢◌, ==-refl, some, List, [], ◌∷◌, arith, lookup}
use gmod_queue.Detours.{put}

pub lookup-put_self : (k : ℕ) (v : List ℕ) (m : List (ℕ × List ℕ)) → lookup k (put k v m) ≡ some v
unfolding put
lookup-put_self k v [] = ground (arith, ==-refl k)
lookup-put_self k v ((j, u) ∷ m) = ground (arith, ==-refl k, lookup-put_self k v m)

pub lookup-put_ne :
    (k j : ℕ) (v : List ℕ) (m : List (ℕ × List ℕ)) → k ≢ j → lookup j (put k v m) ≡ lookup j m
unfolding put
lookup-put_ne k j v [] h = ground arith
lookup-put_ne k j v ((i, u) ∷ m) h = ground (arith, lookup-put_ne k j v m)
