-- ===== src/Lib.antt =====
-- A verification library for the browser client of Reactive Trader Cloud (src/client). All paths here
-- are from the repository's root.
--
-- The client is a tree of models, each behind a view, that listen to services. A service asks the back
-- end over one connection; the services and the models run on Rx streams and on a router that
-- delivers events one at a time.
--
-- System: src/client/src/system
--   System/Connection        service/connection.js: `connect`, `disconnect`, the callbacks of the
--                            transport, the auto disconnect timer, the streams of a topic and of a
--                            remote procedure call (Connection/Operations)
--   System/Service           service/serviceClient.js, serviceObservableExtensions.js and the value
--                            types beside them: the dictionary of a service's instances
--                            (Dictionary), the choice of the instance with the least load (MinLoad),
--                            the heartbeat timeouts (Heartbeats), the stream that joins them
--                            (Instances), the call that connects it (Client), the request and the
--                            stream operations (Operations)
--   System/Retry             observableExtensions/retryPolicy.js and retryPolicyExt.js
--   System/Router            observableExtensions/subscribeWithRouter.js
--   System/Transport         service/autobahnConnectionProxy.js
--   System/Guard, Logger     guard.js and logger.js
--   System/OpenFin           openFin/openFin.js: the limit checks, and what is published to the other
--                            applications; the windows, charts and notifications (Windows), with
--                            ui/common/components/chrome/model/chromeModel.js
-- Services: src/client/src/services
--   Services/Models          the value types of services/model; Models/Decimals: the numbers of prices
--   Services/Mappers         services/mappers: messages of the back end made into those types;
--                            Mappers/Rates: the constructor of services/model/rate.js, and the spread
--   Services/ReferenceData   referenceDataService.js: the cache of the currency pairs
--   Services/Pricing         pricingService.js: one subscription to the stream of spot prices
--   Services/Execution       executionService.js: the limit check, the request and the two timeouts of a
--                            trade
--   Services/CompositeStatus compositeStatusService.js, model/serviceStatusLookup.js and serviceConst.js:
--                            the statuses of the five services in one lookup
--   Services/Streams         blotterService.js and analyticsService.js: streams retried, then mapped
-- Ui: src/client/src/ui
--   Ui/Blotter               blotter/model/blotterModel.js: the rows of the trades; the model on its
--                            stream (Stream)
--   Ui/SpotTile              spotTile/model/spotTileModel.js and notifications.js
--   Ui/SpotTile/Loader       spotTile/spotTileLoader.js and spotTileFactory.js: a tile for each pair
--   Ui/Notional              spotTile/views/notionalInput.jsx and system/utils.js: the notional of a trade
--   Ui/Regions               regions/model, regions/regionManager.js and common/regionManagerHelper.js:
--                            where the models are shown
--   Ui/Popouts               common/popout and regions/model/popoutRegionModel.js: the windows in which
--                            models are shown outside of the page
--   Ui/Footer                footer/model/footerModel.js; the footer above the clients of the services
--                            (Live)
--   Ui/Analytics             analytics/model: the data of the two charts; the model that is given it,
--                            with services/analyticsService.js (Model); the positions per currency
--                            and the bubbles that show them, of views/positions-chart (Positions,
--                            Bubbles); the gradient and the bars of views/chart (Bars)
--   Ui/Shell                 shell/model/shellModel.js, with the connection
--   Views                    Ui/SpotTile/View, Ui/Blotter/View and Ui/Footer/View: what the views show, and
--                            the clicks on the price buttons; Ui/Classes: the package classnames
-- Startup models src/client/src/appBootstrapper.js and wellKnownModelIds.js: the order of the start.
--
-- Common holds what these share: lists, dictionaries as script objects are, signed numbers, calls that
-- may throw, and a sort for the examples.
--
-- How the code is read. A method or a handler is a function from the state to the new state and the
-- calls that it makes on its collaborators, in order; a handler that may throw returns a `Result`. A
-- component's histories are lists of events: calls of its methods, values of the streams that it
-- listens to, and actions of its timers. They are folded by a `run` function, so no fuel is needed
-- anywhere. A serial disposable is a field that says what it holds; a subscription that it has replaced
-- is heard no more. Script objects that serve as dictionaries keep the order in which their keys were
-- first assigned; an array is a list.
--
-- Numbers. Identifiers, loads, amounts and milliseconds are natural numbers, with `none` where a load
-- is not a number. Amounts and profits with a sign are whole numbers. Prices are finite decimal
-- fractions that are not negative, as every finite double is one; their difference and its product
-- with a power of ten are exact here, while a double may round them. `toFixed` throws for more than
-- 20 digits, as where this code runs. From 10 ^ 21 on it prints an exponent: a rate of that size is taken
-- to have no fraction in its text, which is so if only its first digit is not 0.
--
-- Code of other packages. lodash's `sortBy` is a parameter: a record with the sort and the laws that
-- the client relies on, and the examples give an insertion sort that has them. The operators of Rx, the
-- autobahn transport, the schedulers, the router of esp-js, OpenFin and the formats of numbers and
-- dates stand behind events, effects or parameters. What a browser does to the text of the notional
-- input between its handlers is written out in Ui/Notional/Editing.
--
-- Not modelled: the layout of the views and the drawing of the charts; the network sessions of autobahn,
-- the inside of OpenFin and the docking manager, a vendored library; what start-up constructs, and the
-- build code; and the servers of the repository, which are programs of their own in
-- another language.
pub mod Common
pub mod Services
pub mod Startup
pub mod System
pub mod Ui
