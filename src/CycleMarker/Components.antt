-- ===== src/CycleMarker/Components.antt =====
-- The steps on roots, components and the stack are safe.
use mathlib.Core.Path.{subst}
use mathlib.Core.List.{append_assoc}
use py_pointless.Base.{
  ℕ, ◌≡◌, refl, sym, ◌∙◌, Bool-cases, List, [], ◌∷◌, ◌++◌, ltb, ◌==◌, ==_iff, ==→ne, ==_refl, inl,
  inr,
}
use py_pointless.BitUtils.{bm_set}
use py_pointless.CycleMarker.{
  JudyL, out_of_memory, root_missing, visited_missing, State, set_root, set_visited, set_component,
  pop_until, close_component, lower_root,
}
use py_pointless.CycleMarker.Safety.{
  Above, Above-same, At, insert-At, IsState, Safe, Safe-from, Safe->>=, Safe-given, Safe-if,
  present, same_keys,
}

module _ (judy : JudyL) where
  pub set_root-Safe :
      (id n : ℕ) (s : State judy)
      → IsState judy s
      → Safe judy s (λ s'. At judy s'.root id × (s'.stack ≡ s.stack)) (set_root judy id n s)
  unfolding set_root IsState At
  set_root-Safe id n s h =
      Safe-given judy s _ (judy.insert s.root id n) out_of_memory _ (λ _. tt)
        (λ a e. (
          λ k v. insert-At judy s.root a id n k e (h k v),
          record { root_at = λ k r. insert-At judy s.root a id n k e r; visited_at = λ k v. v },
          ((n, judy.get-insert s.root a id n e), refl),
        ))

  pub set_visited-Safe :
      (id n : ℕ) (s : State judy)
      → IsState judy s
      → At judy s.root id
      → Safe judy s
          (λ s'. At judy s'.root id × At judy s'.visited id × (s'.stack ≡ s.stack))
          (set_visited judy id n s)
  unfolding set_visited IsState At
  set_visited-Safe id n s h r =
      Safe-given judy s _ (judy.insert s.visited id n) out_of_memory _ (λ _. tt)
        (λ a e. (
          λ k v. elim (Bool-cases (id == k)) [
            | inl same ↦ subst (λ i. At judy s.root i) ((==_iff id k).0 same) r
            | inr ne ↦
                h k (v.0, sym (judy.get-insert_ne s.visited a id n k e (==→ne id k ne)) ∙ v.1)
          ],
          record { root_at = λ k q. q; visited_at = λ k v. insert-At judy s.visited a id n k e v },
          (r, (n, judy.get-insert s.visited a id n e), refl),
        ))

  pub set_component-Safe :
      (id n : ℕ) (s : State judy)
      → IsState judy s
      → Safe judy s (λ s'. s'.stack ≡ s.stack) (set_component judy id n s)
  unfolding set_component IsState
  set_component-Safe id n s h =
      Safe-given judy s _ (judy.insert s.component id n) out_of_memory _ (λ _. tt)
        (λ a e. (h, record { root_at = λ k q. q; visited_at = λ k v. v }, refl))

  pub pop_until-Safe :
      (v_id root_v : ℕ) (extra before : List ℕ) (s : State judy)
      → IsState judy s
      → Safe judy s
          (λ s'. Above before s'.stack)
          (pop_until judy v_id root_v (extra ++ v_id ∷ before) s)
  unfolding pop_until Above IsState
  pop_until-Safe v_id root_v [] before s h =
      rw (==_refl v_id) ((h, record { root_at = λ k q. q; visited_at = λ k v. v }, ([], refl)))
  pop_until-Safe v_id root_v (x ∷ extra) before s h =
      Safe-if judy s _ (x == v_id) _ _
        (λ _. (
          h,
          record { root_at = λ k q. q; visited_at = λ k v. v },
          (extra ++ v_id ∷ [], sym (append_assoc extra (v_id ∷ []) before)),
        ))
        (λ _.
          let Q : State judy → Type 0 = λ s'. Above before s'.stack in
          let s1 : State judy = record s { cycle_marker = bm_set s.cycle_marker x } in
          Safe-from judy s s1 Q Q _ (record { root_at = λ k q. q; visited_at = λ k v. v })
            (λ y q. q)
            (Safe->>= judy s1 _ Q _ _ (set_component-Safe x root_v s1 h)
              (λ s' h' _ _. pop_until-Safe v_id root_v extra before s' h')))

  pub close_component-Safe :
      (v_id : ℕ) (before : List ℕ) (s : State judy)
      → IsState judy s
      → At judy s.root v_id
      → At judy s.visited v_id
      → Above (v_id ∷ before) s.stack
      → Safe judy s (λ s'. Above before s'.stack) (close_component judy v_id s)
  unfolding close_component At Above
  close_component-Safe v_id before s h (n, r) (m, v) (extra, e) =
      let Q : State judy → Type 0 = λ s'. Above before s'.stack in
      Safe-given judy s Q (judy.get s.root v_id) visited_missing _
        (present judy _ n visited_missing r)
        (λ root_v _.
          Safe-given judy s Q (judy.get s.visited v_id) visited_missing _
            (present judy _ m visited_missing v)
            (λ visited_v _.
              Safe-if judy s Q (root_v == visited_v) _ _
                (λ _. Safe->>= judy s _ Q _ _ (set_component-Safe v_id root_v s h) (λ s' h' _ f.
                  subst (λ stack. Safe judy s' Q (pop_until judy v_id root_v stack s'))
                    (sym (f ∙ e)) (pop_until-Safe v_id root_v extra before s' h')))
                (λ _. (
                  h,
                  same_keys judy s,
                  (extra ++ v_id ∷ [], e ∙ sym (append_assoc extra (v_id ∷ []) before)),
                ))))

  pub lower_root-Safe :
      (v_id w_id : ℕ) (s : State judy)
      → IsState judy s
      → At judy s.root v_id
      → At judy s.root w_id
      → Safe judy s (λ s'. Above s.stack s'.stack) (lower_root judy v_id w_id s)
  unfolding lower_root At
  lower_root-Safe v_id w_id s h (n, r) (m, w) =
      let Q : State judy → Type 0 = λ s'. Above s.stack s'.stack in
      Safe-given judy s Q (judy.get s.root v_id) root_missing _ (present judy _ n root_missing r)
        (λ root_v _.
          Safe-given judy s Q (judy.get s.root w_id) root_missing _
            (present judy _ m root_missing w)
            (λ root_w _.
              Safe-if judy s Q (ltb root_w root_v) _ _
                (λ _.
                  Safe-from judy s s _ Q (set_root judy v_id root_w s) (same_keys judy s)
                    (λ x q. Above-same s.stack x.stack q.1) (set_root-Safe v_id root_w s h))
                (λ _. (h, same_keys judy s, Above-same s.stack s.stack refl))))
