-- ===== src/Broadcast/Subsequence.antt =====
-- Messages in the order in which they were sent, with some left out.
use radio_chatter.Common.{
  ℕ, suc, List, [], ◌∷◌, ◌++◌, length, append-nil, take, take-length-append, zero,
}
use radio_chatter.Broadcast.Delivery.{put}

module _ {T : Type 0} where
  -- `xs` with some elements left out of `ys`.
  pub data IsSubsequence : List T → List T → Type 0 where
    nil : (ys : List T) → IsSubsequence [] ys
    keep : {xs ys : List T} (y : T) → IsSubsequence xs ys → IsSubsequence (y ∷ xs) (y ∷ ys)
    skip : {xs ys : List T} (y : T) → IsSubsequence xs ys → IsSubsequence xs (y ∷ ys)

  pub IsSubsequence-more :
      {xs ys : List T} (m : T) → IsSubsequence xs ys → IsSubsequence xs (ys ++ (m ∷ []))
  IsSubsequence-more m (nil ys) = nil (ys ++ (m ∷ []))
  IsSubsequence-more m (keep y s) = keep y (IsSubsequence-more m s)
  IsSubsequence-more m (skip y s) = skip y (IsSubsequence-more m s)

  only : (ys : List T) (m : T) → IsSubsequence (m ∷ []) (ys ++ (m ∷ []))
  only [] m = keep m (nil [])
  only (y ∷ ys) m = skip y (only ys m)

  IsSubsequence-both :
      {xs ys : List T} (m : T)
      → IsSubsequence xs ys
      → IsSubsequence (xs ++ (m ∷ [])) (ys ++ (m ∷ []))
  IsSubsequence-both m (nil ys) = only ys m
  IsSubsequence-both m (keep y s) = keep y (IsSubsequence-both m s)
  IsSubsequence-both m (skip y s) = skip y (IsSubsequence-both m s)

  pub IsSubsequence-put :
      (got buf sent : List T) (m : T)
      → IsSubsequence (got ++ buf) sent
      → IsSubsequence (got ++ put m buf) (sent ++ (m ∷ []))
  IsSubsequence-put got [] sent m s = IsSubsequence-both m (rw append-nil at s)
  IsSubsequence-put got (x ∷ buf) sent m s = IsSubsequence-more m s

  IsSubsequence-take : {xs zs : List T} (n : ℕ) → IsSubsequence xs zs → IsSubsequence (take n xs) zs
  IsSubsequence-take zero (nil zs) = nil zs
  IsSubsequence-take (suc n) (nil zs) = nil zs
  IsSubsequence-take zero (keep {ys = ys} y s) = nil (y ∷ ys)
  IsSubsequence-take (suc n) (keep y s) = keep y (IsSubsequence-take n s)
  IsSubsequence-take n (skip y s) = skip y (IsSubsequence-take n s)

  pub IsSubsequence-prefix : (xs ys zs : List T) → IsSubsequence (xs ++ ys) zs → IsSubsequence xs zs
  IsSubsequence-prefix xs ys zs s =
      rw (take-length-append xs ys) at (IsSubsequence-take (length xs) s)
