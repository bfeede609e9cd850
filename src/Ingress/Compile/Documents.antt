-- ===== src/Ingress/Compile/Documents.antt =====
-- The documents whose routes the ingress compiles, and the whole of what it compiles.
use orch.Prelude.{
  String, some, List, [], ◌∷◌, ◌≡◌, ◌≢◌, refl, sym, subst, ◌⊎◌, inl, inr, ◌==◌, eq_iff, Bool-cases,
  Option-cases,
}
use mathlib.Core.List.{Memᴰ}
use mathlib.Core.List.Memᴰ
use orch.Prelude.Text.{trim_space}
use orch.Prelude.GoMap
use orch.Prelude.GoMap.{GoMap, lookup-insert_cases}
use orch.Deploy.Document.{Ingress, IngressRoute, App}
use orch.Config.Ingress.{Route}
use orch.Task.Libraries.{NodeSet}
use orch.Ingress.Libraries.{Urls}
use orch.Ingress.Target.{deploy_app_sort_key}
use orch.Ingress.Compile.{
  IngressCompileOptions, add_deploy_app_sort_key, keyed_from, apps_of, ordered_apps, compile_route,
  routes_from, ingresses_from, compile_app_ingress_routes, compile_all,
  compile_ingress_routes_from_deploy,
}
use orch.Ingress.Compile.Compiled.{IsCompiled, compile_route-IsCompiled}

-- One of the documents, with a name.
pub record IsNamedOf (apps : List App) (a : App) : Type 0 where
  pub listed : Memᴰ a apps
  pub named : trim_space a.metadata.name ≢ ""

later_app : {a b : App} {apps : List App} → IsNamedOf apps a → IsNamedOf (b ∷ apps) a
later_app h = record { listed = Memᴰ.tail h.listed; named = h.named }

keyed_from_found :
    (apps : List App) (acc : List String × GoMap App) (k : String) (a : App)
    → GoMap.lookup k (keyed_from apps acc).1 ≡ some a
    → IsNamedOf apps a ⊎ (GoMap.lookup k acc.1 ≡ some a)
unfolding keyed_from add_deploy_app_sort_key
keyed_from_found [] acc k a e = inr e
keyed_from_found (x ∷ apps) acc k a e = elim (Bool-cases (trim_space x.metadata.name == "")) [
  | inl blank ↦ elim (keyed_from_found apps acc k a (rw (keyed_from, blank) at e)) [
    | inl found ↦ inl (later_app found)
    | inr old ↦ inr old
  ]
  | inr named ↦
      elim (keyed_from_found apps (add_deploy_app_sort_key x acc) k a
        (rw (keyed_from, named) at e)) [
          | inl found ↦ inl (later_app found)
          | inr old ↦ elim (lookup-insert_cases (deploy_app_sort_key x.metadata) k x a acc.1 old) [
            | inl (key, same) ↦ inl (record {
              listed = Memᴰ.head (sym same);
              named =
                  subst (λ (y : App). trim_space y.metadata.name ≢ "") same
                    (λ n. let t = (eq_iff (trim_space x.metadata.name) "").1 n in cc (t, named));
            })
            | inr before ↦ inr before
          ]
        ]
]

apps_of_found :
    (keys : List String) (by_key : GoMap App) (a : App)
    → Memᴰ a (apps_of keys by_key)
    → (k : String) × (GoMap.lookup k by_key ≡ some a)
unfolding apps_of
apps_of_found [] by_key a m = elim m [ ]
apps_of_found (k ∷ keys) by_key a m = elim (Option-cases (GoMap.lookup k by_key)) [
  | inl gone ↦ apps_of_found keys by_key a (rw (apps_of, gone) at m)
  | inr (b, found) ↦ at_member (rw (apps_of, found) at m) found (apps_of_found keys by_key a)
]
  where
    at_member :
        {b : App}
        → Memᴰ a (b ∷ apps_of keys by_key)
        → GoMap.lookup k by_key ≡ some b
        → (Memᴰ a (apps_of keys by_key) → (j : String) × (GoMap.lookup j by_key ≡ some a))
        → (j : String) × (GoMap.lookup j by_key ≡ some a)
    at_member (Memᴰ.head e) found rest = (k, rw e found)
    at_member (Memᴰ.tail t) found rest = rest t

ordered_apps-IsNamedOf :
    (sort : List String → List String) (apps : List App) (a : App)
    → Memᴰ a (ordered_apps sort apps)
    → IsNamedOf apps a
unfolding ordered_apps GoMap.lookup
ordered_apps-IsNamedOf sort apps a m =
    let acc = keyed_from apps ([], GoMap.made []) in
    let (k, found) = apps_of_found (sort acc.0) acc.1 a m in
    elim (keyed_from_found apps ([], GoMap.made []) k a found) [
      | inl h ↦ h
      | inr old ↦ absurd (cc old)
    ]

module _ {U S : Type 0} (urls : Urls U) (set : NodeSet S) (opts : IngressCompileOptions) where
  module _ (app : App) where
    routes_from-IsCompiled :
        (ing : Ingress) (rs : List IngressRoute) (route : Route)
        → Memᴰ ing app.ingresses
        → ((r : IngressRoute) → Memᴰ r rs → Memᴰ r ing.routes)
        → Memᴰ route (routes_from urls set opts app rs)
        → IsCompiled urls set opts app route
    unfolding routes_from
    routes_from-IsCompiled ing [] route of_app within m = elim m [ ]
    routes_from-IsCompiled ing (r ∷ rs) route of_app within m =
        elim (Option-cases (compile_route urls set opts app r)) [
          | inl gone ↦
              routes_from-IsCompiled ing rs route of_app (λ x k. within x (Memᴰ.tail k))
                (rw (routes_from, gone) at m)
          | inr (compiled, found) ↦
              at_member (rw (routes_from, found) at m)
                (compile_route-IsCompiled urls set opts app ing r compiled of_app
                  (within r (Memᴰ.head refl)) found)
                (routes_from-IsCompiled ing rs route of_app (λ x k. within x (Memᴰ.tail k)))
        ]
      where
        at_member :
            {compiled : Route}
            → Memᴰ route (compiled ∷ routes_from urls set opts app rs)
            → IsCompiled urls set opts app compiled
            → (Memᴰ route (routes_from urls set opts app rs) → IsCompiled urls set opts app route)
            → IsCompiled urls set opts app route
        at_member (Memᴰ.head e) now rest = rw e now
        at_member (Memᴰ.tail t) now rest = rest t

    ingresses_from-IsCompiled :
        (ings : List Ingress) (route : Route)
        → ((ing : Ingress) → Memᴰ ing ings → Memᴰ ing app.ingresses)
        → Memᴰ route (ingresses_from urls set opts app ings)
        → IsCompiled urls set opts app route
    unfolding ingresses_from
    ingresses_from-IsCompiled [] route within m = elim m [ ]
    ingresses_from-IsCompiled (ing ∷ ings) route within m =
        elim (Memᴰ.append_cases (routes_from urls set opts app ing.routes) m) [
          | inl here ↦
              routes_from-IsCompiled ing ing.routes route (within ing (Memᴰ.head refl)) (λ r k. k)
                here
          | inr later ↦ ingresses_from-IsCompiled ings route (λ i k. within i (Memᴰ.tail k)) later
        ]

  module _ (sort : List String → List String) where
    compile_all-IsCompiled :
        (apps : List App) (route : Route)
        → Memᴰ route (compile_all urls set sort opts apps)
        → (app : App) × Memᴰ app apps × IsCompiled urls set opts app route
    unfolding compile_all compile_app_ingress_routes
    compile_all-IsCompiled [] route m = elim m [ ]
    compile_all-IsCompiled (app ∷ apps) route m =
        elim (Memᴰ.append_cases (compile_app_ingress_routes urls set opts app) m) [
          | inl here ↦ (
            app,
            Memᴰ.head refl,
            ingresses_from-IsCompiled app app.ingresses route (λ i k. k) here,
          )
          | inr later ↦
              let (a, k, h) = compile_all-IsCompiled apps route later in (a, Memᴰ.tail k, h)
        ]

    -- Every compiled route is one of a document that has a name: of a workload of that document, with
    -- an HTTP endpoint on a port, forwarded to the ingress of the other node to which the workload is
    -- assigned with the status running, or, if there is none with an URL, to the address that the DNS
    -- has for it.
    pub compile_ingress_routes_from_deploy-IsCompiled :
        (apps : List App) (route : Route)
        → Memᴰ route (compile_ingress_routes_from_deploy urls set sort opts apps)
        → (app : App) × IsNamedOf apps app × IsCompiled urls set opts app route
    unfolding compile_ingress_routes_from_deploy
    compile_ingress_routes_from_deploy-IsCompiled apps route m =
        let (app, k, h) = compile_all-IsCompiled (ordered_apps sort apps) route m in
        (app, ordered_apps-IsNamedOf sort apps app k, h)
