-- ===== src/Checkout.antt =====
-- web/src/lib/payments.ts: the launch of a checkout, in the window of the provider or on its page.
pub mod Launching
mod Tests
use corpershub_application.Base.{
  ◌||◌, none, some, Option, Bool, String, ◌&&◌, not, true, false, if◌then◌else◌, or_else, str_eq,
}

-- The fields of a checkout that decide about its launch.
pub record InlineCheckout : Type 0 where
  pub client_id : Option String
  pub tx_ref : Option String

pub record HostedCheckout : Type 0 where
  pub authorization_url : Option String
  pub checkout_url : Option String
  pub redirect_url : Option String
  pub checkout_mode : Option String
  pub flutterwave : Option InlineCheckout

-- `Boolean(value)`
abbrev pub is_filled : Option String → Bool
is_filled none = false
is_filled (some s) = not (str_eq s "")

unfoldable pub resolve_hosted_checkout_url : Option HostedCheckout → Option String
resolve_hosted_checkout_url none = none
resolve_hosted_checkout_url (some checkout) =
    or_else checkout.authorization_url (or_else checkout.checkout_url checkout.redirect_url)

abbrev pub is_inline_mode : Option String → Bool
is_inline_mode none = false
is_inline_mode (some mode) = str_eq mode "inline"

abbrev pub inline_of : Option HostedCheckout → Option InlineCheckout
inline_of none = none
inline_of (some checkout) =
    if is_inline_mode checkout.checkout_mode then checkout.flutterwave else none

abbrev pub is_launchable : Option InlineCheckout → Bool
is_launchable none = false
is_launchable (some inline) = is_filled inline.client_id && is_filled inline.tx_ref

unfoldable pub is_flutterwave_inline_checkout : Option HostedCheckout → Bool
is_flutterwave_inline_checkout checkout = is_launchable (inline_of checkout)

-- The page as far as the launch goes: the function of the provider's script, whether the promise of
-- the script is kept, the windows that were opened, and the address that the page was sent to.
pub record Browser : Type 0 where
  pub has_provider : Bool
  pub script_promised : Bool
  pub opened : Option InlineCheckout
  pub address : Option String

-- What loading the script comes to: it may define the function of the provider, or fail.
pub data Script : Type 0 where
  defines loads_nothing fails : Script

pub data Launch : Type 0 where
  launched : Launch
  not_launched : Launch
  script_failed unavailable : Launch

abbrev pub script_loaded : Script → Browser → Bool × Browser
script_loaded defines browser =
    (true, record browser { has_provider = true; script_promised = true })
script_loaded loads_nothing browser = (true, record browser { script_promised = true })
script_loaded fails browser = (false, record browser { script_promised = false })

-- `ensureFlutterwaveScript`: a promise that was kept is not made again, one that failed is forgotten.
unfoldable pub ensure_flutterwave_script : Script → Browser → Bool × Browser
ensure_flutterwave_script script browser =
    if browser.has_provider || browser.script_promised
    then (true, browser)
    else script_loaded script browser

abbrev pub open_window : Option InlineCheckout → Bool × Browser → Launch × Browser
open_window inline (false, browser) = (script_failed, browser)
open_window inline (true, browser) =
    if browser.has_provider
    then (launched, record browser { opened = inline })
    else (unavailable, browser)

abbrev pub go_to : Option String → Browser → Launch × Browser
go_to none browser = (not_launched, browser)
go_to (some url) browser =
    if str_eq url ""
    then (not_launched, browser)
    else (launched, record browser { address = some url })

unfoldable pub launch_hosted_checkout : Script → Option HostedCheckout → Browser → Launch × Browser
launch_hosted_checkout script checkout browser =
    if is_flutterwave_inline_checkout checkout
    then open_window (inline_of checkout) (ensure_flutterwave_script script browser)
    else go_to (resolve_hosted_checkout_url checkout) browser
