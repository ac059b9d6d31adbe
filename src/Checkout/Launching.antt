-- ===== src/Checkout/Launching.antt =====
-- What the launch of a checkout does to the page.
use corpershub_application.Base.{
  ◌||◌, none, some, refl, Option, Bool, String, ◌≡◌, ◌⊎◌, inl, inr, true, false, str_eq, if_lem,
}
use corpershub_application.Checkout.{
  script_loaded, HostedCheckout, Browser, Script, defines, loads_nothing, fails, Launch, launched,
  launch_hosted_checkout, open_window, go_to, ensure_flutterwave_script, inline_of,
  resolve_hosted_checkout_url, is_flutterwave_inline_checkout,
}

abbrev pub is_launched : Launch → Bool
is_launched launched = true
is_launched _ = false

-- The window of the checkout is open, or the page is sent to the address of the checkout; or nothing
-- has happened to the two.
abbrev pub IsLaunch : Option HostedCheckout → Browser → Launch × Browser → Type 0
IsLaunch checkout before (launch, after) =
    ((is_launched launch ≡ true)
      × ((after.opened ≡ inline_of checkout)
          ⊎ ((url : String) × ((resolve_hosted_checkout_url checkout ≡ some url)
                × (after.address ≡ some url)))))
    ⊎ ((is_launched launch ≡ false)
        × (after.opened ≡ before.opened)
        × (after.address ≡ before.address))

-- Loading the script opens nothing and leads nowhere.
script_harmless :
    (script : Script) (before : Browser)
    → ((ensure_flutterwave_script script before).1.opened ≡ before.opened)
      × ((ensure_flutterwave_script script before).1.address ≡ before.address)
unfolding ensure_flutterwave_script
script_harmless script before =
    if_lem (λ (r : Bool × Browser). (r.1.opened ≡ before.opened) × (r.1.address ≡ before.address))
      (before.has_provider || before.script_promised) (λ e. (refl, refl)) λ e. by_script script
  where
    by_script :
        (s : Script)
        → ((script_loaded s before).1.opened ≡ before.opened)
          × ((script_loaded s before).1.address ≡ before.address)
    by_script defines = (refl, refl)
    by_script loads_nothing = (refl, refl)
    by_script fails = (refl, refl)

window_opens :
    (checkout : Option HostedCheckout) (before : Browser) (ready : Bool) (after : Browser)
    → (after.opened ≡ before.opened) × (after.address ≡ before.address)
    → IsLaunch checkout before (open_window (inline_of checkout) (ready, after))
window_opens checkout before false after (a, b) = inr (refl, a, b)
window_opens checkout before true after (a, b) =
    if_lem (λ r. IsLaunch checkout before r) after.has_provider (λ e. inl (refl, inl refl))
      λ e. inr (refl, a, b)

page_leads :
    (checkout : Option HostedCheckout) (before : Browser) (url : Option String)
    → resolve_hosted_checkout_url checkout ≡ url
    → IsLaunch checkout before (go_to url before)
page_leads checkout before none h = inr (refl, refl, refl)
page_leads checkout before (some url) h =
    if_lem (λ r. IsLaunch checkout before r) (str_eq url "") (λ e. inr (refl, refl, refl))
      λ e. inl (refl, inr (url, (h, refl)))

-- A launch that is reported has opened the window of the checkout or has sent the page to its
-- address; one that is not, or that throws, has done neither.
pub launch_hosted_checkout-IsLaunch :
    (script : Script) (checkout : Option HostedCheckout) (before : Browser)
    → IsLaunch checkout before (launch_hosted_checkout script checkout before)
unfolding launch_hosted_checkout
launch_hosted_checkout-IsLaunch script checkout before =
    if_lem (λ r. IsLaunch checkout before r) (is_flutterwave_inline_checkout checkout)
      (λ e. window_opens checkout before _ _ (script_harmless script before))
      λ e. page_leads checkout before (resolve_hosted_checkout_url checkout) refl
